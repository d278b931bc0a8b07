-- ===== src/Tester/History.antt =====
-- servermore-tester/model.go: what holds after any sequence of messages.
use servermore.Base.{
  All, List, Option, String, [], ap, arith, length, lt-get_elem?, none, refl, some, suc, ℕ, ◌<◌,
  ◌∙◌, ◌∷◌, ◌≡◌,
}
use servermore.Tester.Deployment.{DeploymentState}
use servermore.Tester.Keys.{Updated, field_count}
use servermore.Tester.Runs.{update-IsSafe}
use servermore.Tester.Sound.{IsKnown, IsSafe, IsSound}
use servermore.Tester.Ui.{Command, Forms, Model, Msg, new_entries, new_model}
use servermore.Tester.Update.{update, update_all}

module _ {F X : Type 0} (forms : Forms F X) where
  IsSafe-some :
      (m : Model F) (answer : Updated F)
      → IsSafe m answer
      → (m' : Model F) × (commands : List Command) × (answer ≡ some (m', commands))
        × IsSound m'
        × (length m'.functions ≡ length m.functions)
  IsSafe-some m none impossible = elim impossible [ ]
  IsSafe-some m (some (m', commands)) (sound, same) = (m', commands, refl, sound, same)

  pub update_all-IsSound :
      (count : ℕ) (msgs : List (Msg X)) (m : Model F)
      → length m.functions ≡ count
      → IsSound m
      → All (IsKnown count) msgs
      → (m' : Model F) × (update_all forms msgs m ≡ some m')
        × IsSound m'
        × (length m'.functions ≡ count)
  unfolding update_all
  update_all-IsSound count [] m same sound known = (m, refl, sound, same)
  update_all-IsSound count (msg ∷ msgs) m same sound (first, later) =
      let (m1, commands, answer, sound1, same1) =
        IsSafe-some m (update forms msg m) (update-IsSafe forms msg m sound (rw same first)) in
      let (m', reached, sound', same') =
        update_all-IsSound count msgs m1 (same1 ∙ same) sound1 later in
      (m', rw (answer, update_all) reached, sound', same')

length-new_entries :
    (requesters : List (String × String)) → length (new_entries requesters) ≡ length requesters
unfolding new_entries
length-new_entries [] = refl
length-new_entries (first ∷ requesters) = ap suc (length-new_entries requesters)

has_field : (deployed : Option DeploymentState) → 0 < field_count deployed
has_field none = omega arith
has_field (some d) = omega arith

new_model-IsSound :
    (F : Type 0) (requesters : List (String × String))
    → 0 < length requesters
    → IsSound (new_model {F = F} requesters)
unfolding new_model
new_model-IsSound F requesters some_left =
    let (entry, found) =
      lt-get_elem? (new_entries requesters) 0 (omega (arith, length-new_entries requesters)) in
    ((entry, found, has_field entry.deployed), tt)

-- From the start of the program, with a catalog that is not empty, no sequence of messages, in any
-- order, makes `Update` panic, if each deployment that ends is one of a function of the catalog. The
-- selected function is always one of the catalog, the selected field one of those that it has, and an
-- open form is about a function of the catalog.
pub new_model-IsSafe :
    {F X : Type 0} (forms : Forms F X) (requesters : List (String × String)) (msgs : List (Msg X))
    → 0 < length requesters
    → All (IsKnown (length requesters)) msgs
    → (m : Model F) × (update_all forms msgs (new_model requesters) ≡ some m)
      × IsSound m
      × (length m.functions ≡ length requesters)
unfolding new_model
new_model-IsSafe {F = F} forms requesters msgs some_left known =
    update_all-IsSound forms (length requesters) msgs (new_model requesters)
      (length-new_entries requesters) (new_model-IsSound F requesters some_left) known
