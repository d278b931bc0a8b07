-- ===== src/Tester/Sound.antt =====
-- servermore-tester/model.go: no message makes `Update` index a function that is not there.
use servermore.Base.{
  Bool-cases, List, Option, [], arith, get_elem?, get_elem?-lt, inl, inr, length, lt-get_elem?,
  none, not, refl, some, ℕ, ◌&&◌, ◌+◌, ◌-◌, ◌<◌, ◌≡◌, ◌≤◌,
}
use servermore.Base.Maps.{is_some}
use servermore.Tester.Deployment.{
  Delta, DeploymentState, adjust_setting, minus_one, plus_one, toggle_enabled,
}
use servermore.Tester.Entries.{HasFunction, HasFunction-IsGrown, IsField, IsGrown, IsGrown-modify}
use servermore.Tester.Keys.{
  Action, Updated, adjusted_setting, ask_dozzle, begin_shutdown, change_selected, decrease, dozzle,
  enter, enter_on, field_count, field_down, field_up, increase, is_setup, map_deployed, move_field,
  next_function, on_action, on_dashboard, open_deploy_form, previous_function, quit_now,
  select_function, selected_deployment, toggle_requests, toggled, unbound,
}
use servermore.Tester.Text.{clamp_int, is_empty}
use servermore.Tester.Ui.{Forms, FunctionEntry, Model, Msg, deploy_done}

-- A deployment that ends is one of a function that is there.
abbrev pub IsKnown : {X : Type 0} → ℕ → Msg X → Type 0
IsKnown count (deploy_done i name function_id problem) = i < count
IsKnown count _ = Unit

clamp_below :
    (value : ℕ) (deployed : Option DeploymentState)
    → clamp_int value 0 (field_count deployed - 1) < field_count deployed
clamp_below value none = ground arith
clamp_below value (some deployed) = ground arith

grown_by :
    (f : DeploymentState → DeploymentState) (deployed : Option DeploymentState)
    → field_count deployed ≤ field_count (map_deployed f deployed)
grown_by f none = omega arith
grown_by f (some deployed) = omega arith

clamp_index : (value n : ℕ) → 0 < n → clamp_int value 0 (n - 1) < n
clamp_index value n some_left = ground arith

module _ {F : Type 0} where
  -- The selection is in range, and so is the function that an open form is about.
  abbrev pub IsSound : Model F → Type 0
  IsSound m =
      IsField m.functions m.selected_function m.selected_field
      × HasFunction m.deploy_form m.deploy_function_index m.functions

  -- What a step of `update` leaves: no panic, a model that is sound, and as many functions.
  abbrev pub IsSafe : Model F → Updated F → Type 0
  IsSafe m none = ⊥
  IsSafe m (some (m', commands)) = IsSound m' × (length m'.functions ≡ length m.functions)

  pub IsSound-IsGrown :
      (m : Model F) (others : List FunctionEntry)
      → IsSound m
      → IsGrown m.functions others
      → IsSafe m (some (record m { functions = others }, []))
  IsSound-IsGrown m others (field, form) (same, keeps) = (
    (
      keeps m.selected_function m.selected_field field,
      HasFunction-IsGrown m.deploy_form m.deploy_function_index m.functions others (same, keeps)
          form,
    ),
    same,
  )

  move_field-IsSafe :
      (value : ℕ) (m : Model F)
      → m.selected_function < length m.functions
      → HasFunction m.deploy_form m.deploy_function_index m.functions
      → IsSafe m (move_field value m)
  unfolding move_field selected_deployment
  move_field-IsSafe value m below form =
      let (entry, found) = lt-get_elem? m.functions m.selected_function below in
      rw (found, IsSafe, move_field, selected_deployment)
        (((entry, found, clamp_below value entry.deployed), form), refl)

  select_function-IsSafe :
      (value : ℕ) (m : Model F)
      → 0 < length m.functions
      → HasFunction m.deploy_form m.deploy_function_index m.functions
      → IsSafe m (select_function value m)
  unfolding select_function
  select_function-IsSafe value m some_left form =
      move_field-IsSafe m.selected_field
        (record m { selected_function = clamp_int value 0 (length m.functions - 1) })
        (clamp_index value (length m.functions) some_left) form

  change_selected-IsSafe :
      (f : DeploymentState → DeploymentState) (m : Model F)
      → IsSound m
      → IsSafe m (some (change_selected f m, []))
  change_selected-IsSafe f m sound = IsSound-IsGrown m _ sound (
      IsGrown-modify m.selected_function
        (λ entry. record entry { deployed = map_deployed f entry.deployed }) m.functions
        (λ entry. grown_by f entry.deployed))

  pub begin_shutdown-IsSafe : (m : Model F) → IsSound m → IsSafe m (some (begin_shutdown m))
  unfolding begin_shutdown
  begin_shutdown-IsSafe m sound = elim (Bool-cases m.shutting_down) [
    | inl again ↦ rw again (sound, refl)
    | inr first ↦ rw first (sound, refl)
  ]

  ask_dozzle-IsSafe : (m : Model F) → IsSound m → IsSafe m (some (ask_dozzle m))
  unfolding ask_dozzle
  ask_dozzle-IsSafe m sound =
      elim (Bool-cases (is_empty m.dozzle_container_id && not m.dozzle_starting)) [
        | inl now ↦ rw now (sound, refl)
        | inr none_now ↦ rw none_now (sound, refl)
      ]

module _ {F X : Type 0} (forms : Forms F X) where
  enter_on-IsSafe :
      (m : Model F) (entry : FunctionEntry)
      → get_elem? m.functions m.selected_function ≡ some entry
      → IsSound m
      → IsSafe m (enter_on forms m (some entry))
  unfolding open_deploy_form
  enter_on-IsSafe m entry found (field, form) =
      elim (Bool-cases (not (is_some entry.deployed) && not entry.deploying)) [
        | inl fresh ↦
            rw fresh ((field, get_elem?-lt m.functions m.selected_function entry found), refl)
        | inr deployed ↦ rw deployed ((field, form), refl)
      ]

  toggled-IsSafe :
      (m : Model F) (deployed : Option DeploymentState) → IsSound m → IsSafe m (toggled m deployed)
  toggled-IsSafe m none sound = (sound, refl)
  toggled-IsSafe m (some d) sound = change_selected-IsSafe toggle_enabled m sound

  adjusted_setting-IsSafe :
      (delta : Delta) (m : Model F) (deployed : Option DeploymentState)
      → IsSound m
      → IsSafe m (adjusted_setting delta m deployed)
  adjusted_setting-IsSafe delta m none sound = (sound, refl)
  adjusted_setting-IsSafe delta m (some d) sound =
      change_selected-IsSafe (adjust_setting m.selected_field delta) m sound

  on_dashboard-IsSafe :
      (action : Action) (m : Model F) → IsSound m → IsSafe m (on_dashboard forms action m)
  unfolding on_dashboard selected_deployment
  on_dashboard-IsSafe action m ((entry, found, below), form) =
      let inside = get_elem?-lt m.functions m.selected_function entry found in
      let sound : IsSound m = ((entry, found, below), form) in
      elim action as (λ a. IsSafe m (on_dashboard forms a m)) [
        | quit_now ↦ (sound, refl)
        | field_up ↦ move_field-IsSafe (m.selected_field - 1) m inside form
        | field_down ↦ move_field-IsSafe (m.selected_field + 1) m inside form
        | dozzle ↦ ask_dozzle-IsSafe m sound
        | previous_function ↦ select_function-IsSafe (m.selected_function - 1) m (omega arith) form
        | next_function ↦ select_function-IsSafe (m.selected_function + 1) m (omega arith) form
        | toggle_requests ↦
            rw (found, IsSafe, on_dashboard, selected_deployment)
              (toggled-IsSafe m entry.deployed sound)
        | increase ↦
            rw (found, IsSafe, on_dashboard, selected_deployment)
              (adjusted_setting-IsSafe plus_one m entry.deployed sound)
        | decrease ↦
            rw (found, IsSafe, on_dashboard, selected_deployment)
              (adjusted_setting-IsSafe minus_one m entry.deployed sound)
        | enter ↦
            rw (found, IsSafe, on_dashboard, selected_deployment)
              (enter_on-IsSafe m entry found sound)
        | unbound ↦ (sound, refl)
      ]

  pub on_action-IsSafe :
      (action : Action) (m : Model F) → IsSound m → IsSafe m (on_action forms action m)
  on_action-IsSafe action m sound = elim (Bool-cases (is_setup m.phase)) [
    | inl early ↦ elim action as (λ a. IsSafe m (on_action forms a m)) [
      | quit_now ↦ begin_shutdown-IsSafe m sound
      | _ ↦ rw early (sound, refl)
    ]
    | inr late ↦ elim action as (λ a. IsSafe m (on_action forms a m)) [
      | quit_now ↦ begin_shutdown-IsSafe m sound
      | a ↦ rw late (on_dashboard-IsSafe a m sound)
    ]
  ]
