-- ===== src/Cache/Drop.antt =====
-- The second loop of `UpsertRunnerHeartbeat`, and the loop of `RemoveRunner`.
use servermore.Base.{
  Bool, Bool-cases, Option, String, [], arith, eq_iff, if◌then◌else◌, inl, inr, none, not, refl,
  str_eq, ◌&&◌, ◌∷◌, ◌≡◌,
}
use servermore.Base.Maps.{is_some, lookup}
use servermore.Cache.{
  InMemoryCache, Set, drop_instance, drop_unreported, remove_instance_locked, remove_instances,
}
use servermore.Cache.Invariant.{IsConsistent, IsCounted}
use servermore.Cache.Remove.{remove_instance_locked-IsConsistent, remove_instance_locked-IsCounted}
use servermore.Cache.Remove

drop_instance-IsConsistent :
    (new : Set) (i : String) (c : InMemoryCache)
    → IsConsistent c
    → IsConsistent (drop_instance new i c)
unfolding drop_instance
drop_instance-IsConsistent new i c valid = elim (Bool-cases (is_some (lookup i new))) [
  | inl e ↦ rw e valid
  | inr e ↦ rw e (remove_instance_locked-IsConsistent i c valid)
]

drop_instance-IsCounted :
    (new : Set) (i : String) (c : InMemoryCache) (r : String)
    → IsConsistent c
    → IsCounted c r
    → IsCounted (drop_instance new i c) r
unfolding drop_instance
drop_instance-IsCounted new i c r valid counted = elim (Bool-cases (is_some (lookup i new))) [
  | inl e ↦ rw e counted
  | inr e ↦ rw e (remove_instance_locked-IsCounted i c valid r counted)
]

pub drop_unreported-IsConsistent :
    (new previous : Set) (c : InMemoryCache)
    → IsConsistent c
    → IsConsistent (drop_unreported new previous c)
unfolding drop_unreported
drop_unreported-IsConsistent new [] c valid = valid
drop_unreported-IsConsistent new ((i, _) ∷ previous) c valid =
    drop_unreported-IsConsistent new previous (drop_instance new i c)
      (drop_instance-IsConsistent new i c valid)

pub drop_unreported-IsCounted :
    (new previous : Set) (c : InMemoryCache) (r : String)
    → IsConsistent c
    → IsCounted c r
    → IsCounted (drop_unreported new previous c) r
unfolding drop_unreported
drop_unreported-IsCounted new [] c r valid counted = counted
drop_unreported-IsCounted new ((i, _) ∷ previous) c r valid counted =
    drop_unreported-IsCounted new previous (drop_instance new i c) r
      (drop_instance-IsConsistent new i c valid) (drop_instance-IsCounted new i c r valid counted)

abbrev pub is_dropped : Set → Set → String → Bool
is_dropped new previous j = is_some (lookup j previous) && not (is_some (lookup j new))

-- An entry that survives unless its instance is dropped.
abbrev pub Keeps {ℓ} : {A : Type ℓ} → Bool → Option A → Option A → Type ℓ
Keeps dropped before after = after ≡ (if dropped then none else before)

-- The three maps of instances lose what is dropped, and nothing else.
abbrev pub KeepsAll : Bool → String → InMemoryCache → InMemoryCache → Type 0
KeepsAll dropped j c d =
    Keeps dropped (lookup j c.instance_runner) (lookup j d.instance_runner)
    × Keeps dropped (lookup j c.instance_function) (lookup j d.instance_function)
    × Keeps dropped (lookup j c.instance_queue) (lookup j d.instance_queue)

drop_instance-KeepsAll :
    (new : Set) (i : String) (c : InMemoryCache) (j : String)
    → IsConsistent c
    → KeepsAll (str_eq i j && not (is_some (lookup j new))) j c (drop_instance new i c)
unfolding drop_instance
drop_instance-KeepsAll new i c j valid = ground (
  arith,
  eq_iff i j,
  Remove.lookup-runner i c valid j,
  Remove.lookup-function i c valid j,
  Remove.lookup-queue i c valid j,
)

pub drop_unreported-KeepsAll :
    (new previous : Set) (c : InMemoryCache) (j : String)
    → IsConsistent c
    → KeepsAll (is_dropped new previous j) j c (drop_unreported new previous c)
unfolding drop_unreported lookup
drop_unreported-KeepsAll new [] c j valid = (refl, refl, refl)
drop_unreported-KeepsAll new ((i, _) ∷ previous) c j valid = ground (
  arith,
  eq_iff i j,
  drop_instance-KeepsAll new i c j valid,
  drop_unreported-KeepsAll new previous (drop_instance new i c) j
      (drop_instance-IsConsistent new i c valid),
)

-- `RemoveRunner` drops as a heartbeat that names nothing.
pub remove_instances-drop_unreported :
    (instances : Set) (c : InMemoryCache)
    → remove_instances instances c ≡ drop_unreported [] instances c
unfolding remove_instances drop_unreported drop_instance lookup
remove_instances-drop_unreported [] c = refl
remove_instances-drop_unreported ((i, _) ∷ instances) c =
    remove_instances-drop_unreported instances (remove_instance_locked i c)
