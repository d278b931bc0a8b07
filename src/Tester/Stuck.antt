-- ===== src/Tester/Stuck.antt =====
-- servermore-tester/model.go: a function that is being deployed, and the steps that leave it so.
use servermore.Base.{
  Bool, Bool-cases, List, Option, Option-cases, String, [], ap, get_elem?, get_elem?-modify, inl,
  inr, leb, length, modify, none, not, refl, some, suc, true, zero, ℕ, ◌&&◌, ◌-◌, ◌∙◌, ◌∷◌, ◌≡◌,
  ◌≢◌,
}
use servermore.Base.Maps.{Map, get_or, lookup}
use servermore.Tester.Deployment.{Delta, DeploymentState, adjust_setting, toggle_enabled}
use servermore.Tester.Keys.{
  Updated, adjusted_setting, ask_dozzle, at_selected, begin_shutdown, change_selected, map_deployed,
  move_field, select_function, selected_deployment, toggled,
}
use servermore.Tester.Text.{clamp_int, is_empty}
use servermore.Tester.Ui.{FunctionEntry, Model, Msg, deploy_done}
use servermore.Tester.Update.{after_poll, deployed_at, deployed_entry, failed_entry, store_paths}

-- The function's deployment has begun, and as far as the model knows it has not ended.
abbrev pub IsStuck : ℕ → List FunctionEntry → Type 0
IsStuck i functions =
    (entry : FunctionEntry) × (get_elem? functions i ≡ some entry)
    × (entry.deploying ≡ true)
    × (entry.deployed ≡ none)

-- A message that does not say that the deployment of this function has ended.
abbrev pub IsApart : {X : Type 0} → ℕ → Msg X → Type 0
IsApart i (deploy_done j name function_id problem) = j ≢ i
IsApart i _ = Unit

pub IsStuck-modify :
    (i j : ℕ) (f : FunctionEntry → FunctionEntry) (functions : List FunctionEntry)
    (keeps : (entry : FunctionEntry)
      → entry.deploying ≡ true
      → entry.deployed ≡ none
      → ((f entry).deploying ≡ true) × ((f entry).deployed ≡ none))
    → IsStuck i functions
    → IsStuck i (modify j f functions)
IsStuck-modify i j f functions keeps (entry, found, begun, missing) =
    elim (get_elem?-modify j i f functions entry found) [
      | inl same ↦ (entry, same, begun, missing)
      | inr (_, changed) ↦
          let (begun', missing') = keeps entry begun missing in (f entry, changed, begun', missing')
    ]

IsStuck-other :
    (i j : ℕ) (f : FunctionEntry → FunctionEntry) (functions : List FunctionEntry)
    → j ≢ i
    → IsStuck i functions
    → IsStuck i (modify j f functions)
IsStuck-other i j f functions apart (entry, found, begun, missing) =
    elim (get_elem?-modify j i f functions entry found) [
      | inl same ↦ (entry, same, begun, missing)
      | inr (same, _) ↦ absurd (apart same)
    ]

pub IsStuck-store_paths :
    (i : ℕ) (binaries : Map String) (functions : List FunctionEntry)
    → IsStuck i functions
    → IsStuck i (store_paths binaries functions)
unfolding store_paths get_elem?
IsStuck-store_paths i binaries [] (entry, found, begun, missing) = cc
IsStuck-store_paths zero binaries (first ∷ entries) (entry, found, begun, missing) =
    let same : first ≡ entry = ap (get_or first) found in
    (
      record first { binary_path = get_or "" (lookup first.binary_name binaries) },
      refl,
      ap (λ e. e.deploying) same ∙ begun,
      ap (λ e. e.deployed) same ∙ missing,
    )
IsStuck-store_paths (suc i) binaries (first ∷ entries) stuck =
    IsStuck-store_paths i binaries entries stuck

module _ {F : Type 0} (i : ℕ) where
  abbrev pub StaysStuck : Updated F → Type 0
  StaysStuck none = Unit
  StaysStuck (some (m', commands)) = IsStuck i m'.functions

  pub change_selected-IsStuck :
      (f : DeploymentState → DeploymentState) (m : Model F)
      → IsStuck i m.functions
      → IsStuck i ((change_selected f m).functions)
  change_selected-IsStuck f m stuck =
      IsStuck-modify i m.selected_function _ m.functions
        (λ entry begun missing. (begun, ap (map_deployed f) missing)) stuck

  pub move_field-IsStuck :
      (value : ℕ) (m : Model F) → IsStuck i m.functions → StaysStuck (move_field value m)
  unfolding move_field
  move_field-IsStuck value m stuck = elim (Option-cases (selected_deployment m)) [
    | inl missing ↦ rw (missing, StaysStuck) tt
    | inr (deployed, found) ↦ rw (found, StaysStuck) stuck
  ]

  pub select_function-IsStuck :
      (value : ℕ) (m : Model F) → IsStuck i m.functions → StaysStuck (select_function value m)
  unfolding select_function
  select_function-IsStuck value m stuck =
      move_field-IsStuck m.selected_field
        (record m { selected_function = clamp_int value 0 (length m.functions - 1) }) stuck

  pub begin_shutdown-IsStuck :
      (m : Model F) → IsStuck i m.functions → IsStuck i (((begin_shutdown m).0).functions)
  unfolding begin_shutdown
  begin_shutdown-IsStuck m stuck = elim (Bool-cases m.shutting_down) [
    | inl again ↦ rw again stuck
    | inr first ↦ rw first stuck
  ]

  pub ask_dozzle-IsStuck :
      (m : Model F) → IsStuck i m.functions → IsStuck i (((ask_dozzle m).0).functions)
  unfolding ask_dozzle
  ask_dozzle-IsStuck m stuck =
      elim (Bool-cases (is_empty m.dozzle_container_id && not m.dozzle_starting)) [
        | inl now ↦ rw now stuck
        | inr never ↦ rw never stuck
      ]

  pub at_selected-IsStuck :
      (m : Model F) (next : Option DeploymentState → Updated F)
      → ((deployed : Option DeploymentState) → StaysStuck (next deployed))
      → StaysStuck (at_selected (selected_deployment m) next)
  at_selected-IsStuck m next keeps = elim (Option-cases (selected_deployment m)) [
    | inl missing ↦ rw (missing, StaysStuck) tt
    | inr (deployed, found) ↦ rw (found, StaysStuck) (keeps deployed)
  ]

  pub toggled-IsStuck :
      (m : Model F)
      → IsStuck i m.functions
      → (deployed : Option DeploymentState) → StaysStuck (toggled m deployed)
  toggled-IsStuck m stuck none = stuck
  toggled-IsStuck m stuck (some d) = change_selected-IsStuck toggle_enabled m stuck

  pub adjusted_setting-IsStuck :
      (delta : Delta) (m : Model F)
      → IsStuck i m.functions
      → (deployed : Option DeploymentState) → StaysStuck (adjusted_setting delta m deployed)
  adjusted_setting-IsStuck delta m stuck none = stuck
  adjusted_setting-IsStuck delta m stuck (some d) =
      change_selected-IsStuck (adjust_setting m.selected_field delta) m stuck

  pub deployed_at-IsStuck :
      (j : ℕ) (name : List ℕ) (function_id : String) (problem : Option String) (m : Model F)
      (at : Option FunctionEntry)
      → j ≢ i
      → IsStuck i m.functions
      → StaysStuck (deployed_at j name function_id problem m at)
  deployed_at-IsStuck j name function_id problem m none apart stuck = tt
  deployed_at-IsStuck j name function_id (some e) m (some function) apart stuck =
      IsStuck-other i j (failed_entry e) m.functions apart stuck
  deployed_at-IsStuck j name function_id none m (some function) apart stuck =
      IsStuck-other i j (deployed_entry name function_id) m.functions apart stuck

  pub after_poll-IsStuck :
      (output : List ℕ) (commander_ready gateway_ready : Bool) (problem : Option String)
      (m : Model F)
      → IsStuck i m.functions
      → IsStuck i (((after_poll output commander_ready gateway_ready problem m).0).functions)
  unfolding after_poll
  after_poll-IsStuck output commander_ready gateway_ready (some e) m stuck = stuck
  after_poll-IsStuck output commander_ready gateway_ready none m stuck =
      elim (Bool-cases (commander_ready && gateway_ready)) [
        | inl ready ↦ rw ready stuck
        | inr not_yet ↦ elim (Bool-cases (leb 240 (suc m.setup_polls))) [
          | inl over ↦ rw (not_yet, over) stuck
          | inr under ↦ rw (not_yet, under) stuck
        ]
      ]
