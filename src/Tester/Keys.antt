-- ===== src/Tester/Keys.antt =====
-- servermore-tester/model.go: `handleKey`, and what it calls.
use servermore.Base.{
  Bool, List, Option, String, [], false, get_elem?, if◌then◌else◌, length, modify, none, not, some,
  str_eq, true, ℕ, ◌&&◌, ◌+◌, ◌-◌, ◌||◌, ◌∷◌,
}
use servermore.Base.Maps.{is_some}
use servermore.Tester.Deployment.{
  Delta, DeploymentState, adjust_setting, minus_one, plus_one, toggle_enabled,
}
use servermore.Tester.Text.{clamp_int, is_empty, larger_int, smaller_int}
use servermore.Tester.Ui.{
  Command, Forms, FunctionEntry, Model, Phase, asking_name, going_down, phase_dashboard,
  phase_quitting, phase_setup, requests_off, requests_on, shutdown_stack, start_dozzle,
  starting_dozzle,
}

-- What the keys mean, outside the form and in it.
pub data Action : Type 0 where
  quit_now field_up field_down dozzle previous_function next_function : Action
  toggle_requests increase decrease enter unbound : Action

abbrev pub is_one_of : String → String → String → Bool
is_one_of key first second = str_eq key first || str_eq key second

unfoldable pub action_of : String → Action
action_of key =
    if is_one_of key "ctrl+c" "q"
    then quit_now
    else (if is_one_of key "up" "k"
        then field_up
        else (if is_one_of key "down" "j"
            then field_down
            else (if str_eq key "d"
                then dozzle
                else (if is_one_of key "left" "h"
                    then previous_function
                    else (if is_one_of key "right" "l"
                        then next_function
                        else (if str_eq key "0"
                            then toggle_requests
                            else (if is_one_of key "+" "="
                                then increase
                                else (if is_one_of key "-" "_"
                                    then decrease
                                    else (if str_eq key "enter" then enter else unbound)))))))))

-- Go's result of `Update`: the model and the commands; none is a panic.
abbrev pub Updated : Type 0 → Type 0
Updated F = Option (Model F × List Command)

abbrev pub is_quitting : Phase → Bool
is_quitting phase_quitting = true
is_quitting _ = false

abbrev pub is_setup : Phase → Bool
is_setup phase_setup = true
is_setup _ = false

abbrev pub is_dashboard : Phase → Bool
is_dashboard phase_dashboard = true
is_dashboard _ = false

abbrev pub field_count : Option DeploymentState → ℕ
field_count none = 1
field_count (some deployed) = 3

abbrev pub map_deployed :
    (DeploymentState → DeploymentState) → Option DeploymentState → Option DeploymentState
map_deployed f none = none
map_deployed f (some deployed) = some (f deployed)

module _ {F : Type 0} where
  unfoldable pub begin_shutdown : Model F → Model F × List Command
  begin_shutdown m = if m.shutting_down then (m, []) else (
    record m {
      shutting_down = true;
      phase = phase_quitting;
      status_line = going_down;
      cancelled = true;
    },
    shutdown_stack ∷ [],
  )

  unfoldable pub selected_deployment : Model F → Option (Option DeploymentState)
  selected_deployment m = elim (get_elem? m.functions m.selected_function) [
    | none ↦ none
    | some function ↦ some function.deployed
  ]

  -- A step that reads the selected deployment, and panics if there is no such function.
  abbrev pub at_selected :
      Option (Option DeploymentState) → (Option DeploymentState → Updated F) → Updated F
  at_selected none next = none
  at_selected (some deployed) next = next deployed

  -- `selectedFunctionFieldCount`, and the clamp to the fields it leaves.
  unfoldable pub move_field : ℕ → Model F → Updated F
  unfolding selected_deployment
  move_field value m = at_selected (selected_deployment m) (λ deployed.
      some (record m { selected_field = clamp_int value 0 (field_count deployed - 1) }, []))

  -- `clampInt(m.selectedFunction±1, 0, len(m.functions)-1)`, then `normalizeSelectedField`.
  unfoldable pub select_function : ℕ → Model F → Updated F
  unfolding move_field
  select_function value m =
      let moved = record m { selected_function = clamp_int value 0 (length m.functions - 1) } in
      move_field moved.selected_field moved

  abbrev pub change_selected : (DeploymentState → DeploymentState) → Model F → Model F
  change_selected f m = record m {
    functions =
        modify m.selected_function
          (λ entry. record entry { deployed = map_deployed f entry.deployed }) m.functions;
  }

  abbrev pub toggled : Model F → Option DeploymentState → Updated F
  toggled m none = some (m, [])
  toggled m (some d) = some (
    record (change_selected toggle_enabled m) {
      status_line = if not d.enabled then requests_on else requests_off;
    },
    [],
  )

  abbrev pub adjusted_setting : Delta → Model F → Option DeploymentState → Updated F
  adjusted_setting delta m none = some (m, [])
  adjusted_setting delta m (some d) =
      some (change_selected (adjust_setting m.selected_field delta) m, [])

  unfoldable pub ask_dozzle : Model F → Model F × List Command
  ask_dozzle m =
      if is_empty m.dozzle_container_id && not m.dozzle_starting
      then (
        record m { dozzle_starting = true; dozzle_error = ""; status_line = starting_dozzle },
        start_dozzle ∷ [],
      )
      else (m, [])

module _ {F X : Type 0} (forms : Forms F X) where
  -- `openDeployForm`, and then the form's own start.
  unfoldable pub open_deploy_form : ℕ → FunctionEntry → Model F → Model F × List Command
  open_deploy_form function_index function m =
      let form =
        forms.new_form function.suggested_name (smaller_int 72 (larger_int 48 (m.width - 10))) in
      (
        record m {
          deploy_function_index = function_index;
          deploy_form = some form;
          status_line = asking_name function.binary_name;
        },
        forms.init form,
      )

  abbrev pub enter_on : Model F → Option FunctionEntry → Updated F
  enter_on m none = none
  enter_on m (some function) =
      if not (is_some function.deployed) && not function.deploying
      then some (open_deploy_form m.selected_function function m)
      else some (m, [])

  -- The second switch of `handleKey`.
  unfoldable pub on_dashboard : Action → Model F → Updated F
  unfolding move_field select_function selected_deployment
  on_dashboard quit_now m = some (m, [])
  on_dashboard field_up m = move_field (m.selected_field - 1) m
  on_dashboard field_down m = move_field (m.selected_field + 1) m
  on_dashboard dozzle m = some (ask_dozzle m)
  on_dashboard previous_function m = select_function (m.selected_function - 1) m
  on_dashboard next_function m = select_function (m.selected_function + 1) m
  on_dashboard toggle_requests m = at_selected (selected_deployment m) (toggled m)
  on_dashboard increase m = at_selected (selected_deployment m) (adjusted_setting plus_one m)
  on_dashboard decrease m = at_selected (selected_deployment m) (adjusted_setting minus_one m)
  on_dashboard enter m = enter_on m (get_elem? m.functions m.selected_function)
  on_dashboard unbound m = some (m, [])

  abbrev pub on_action : Action → Model F → Updated F
  on_action quit_now m = some (begin_shutdown m)
  on_action action m = if is_setup m.phase then some (m, []) else on_dashboard action m

  unfoldable pub handle_key : String → Model F → Updated F
  unfolding action_of on_dashboard
  handle_key key m = on_action (action_of key) m
