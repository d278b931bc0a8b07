-- ===== src/Tester/Ui.antt =====
-- servermore-tester/model.go: the state of the terminal program and `Update`, which takes one message
-- and answers with the commands to run. The form of package huh is a parameter, and so are the messages
-- that neither it nor this code names. The lines of the status are constructors. Rendering is left out.
use servermore.Base.{Bool, List, Option, String, [], false, none, ℕ, ◌∷◌}
use servermore.Base.Maps.{Map}
use servermore.Tester.Deployment.{DeploymentState}

pub data Phase : Type 0 where
  phase_setup phase_dashboard phase_quitting : Phase

pub record FunctionEntry : Type 0 where
  pub binary_name : String
  pub suggested_name : String
  pub binary_path : String
  pub deploying : Bool
  pub deploy_error : String
  pub deployed : Option DeploymentState

pub data StatusLine : Type 0 where
  preparing compilation_failed building startup_failed stack_is_started log_polling_failed :
      StatusLine
  stack_is_ready startup_timed_out going_down shutdown_failed is_down : StatusLine
  waiting_for : (commander gateway : Bool) → StatusLine
  starting_dozzle dozzle_failed dozzle_running deployment_cancelled requests_on requests_off :
      StatusLine
  asking_name deploying_now deploy_failed : (binary_name : String) → StatusLine
  deployed_as : (binary_name : String) (name : List ℕ) (function_id : String) → StatusLine

pub data Msg (X : Type 0) : Type 0 where
  ui_tick dashboard_tick stack_poll_tick : Msg X
  window_size : (width height : ℕ) → Msg X
  compile_done : (binaries : Map String) (output : List ℕ) (problem : Option String) → Msg X
  stack_ready : (output : List ℕ) (is_started : Bool) (problem : Option String) → Msg X
  stack_poll :
      (output : List ℕ) (commander_ready gateway_ready : Bool) (problem : Option String) → Msg X
  dozzle_start : (container_id url : List ℕ) (problem : Option String) → Msg X
  deploy_done :
      (function_index : ℕ) (name : List ℕ) (function_id : String) (problem : Option String) → Msg X
  stack_shutdown_done : (problem : Option String) → Msg X
  key_press : (key : String) → Msg X
  other_msg : X → Msg X

-- What `Update` asks to be run; `run_worker` is the goroutine of a deployed function.
pub data Command : Type 0 where
  ui_tick_later dashboard_tick_later poll_tick_later : Command
  start_stack poll_stack start_dozzle shutdown_stack quit : Command
  deploy_function : (function_index : ℕ) (binary_path : String) (name : List ℕ) → Command
  run_worker : (function_index : ℕ) → Command
  form_command : (number : ℕ) → Command

-- The form: its first state, with its commands, for a suggested name and a width; what it makes of a
-- message, with no form where the answer has another type; whether it is completed; and the name.
pub record Forms (F X : Type 0) : Type 0 where
  pub new_form : String → ℕ → F
  pub init : F → List Command
  pub update_form : F → Msg X → Option F × List Command
  pub is_completed : F → Bool
  pub name_of : F → List ℕ
  pub trim_space : List ℕ → List ℕ

-- `cancelled` tells whether the program's context has been cancelled. The lines of `setupStream` come
-- from the commands that write to it and are only shown, so that its field tells whether it is there.
pub record Model (F : Type 0) : Type 0 where
  pub phase : Phase
  pub cancelled : Bool
  pub width : ℕ
  pub height : ℕ
  pub spinner_index : ℕ
  pub is_starting_status : Bool
  pub setup_output : List ℕ
  pub setup_stream : Bool
  pub setup_err : Option String
  pub setup_polls : ℕ
  pub dozzle_container_id : List ℕ
  pub dozzle_url : List ℕ
  pub dozzle_starting : Bool
  pub dozzle_error : String
  pub functions : List FunctionEntry
  pub selected_function : ℕ
  pub selected_field : ℕ
  pub status_line : StatusLine
  pub stack_started : Bool
  pub stack_starting : Bool
  pub shutting_down : Bool
  pub deploy_function_index : ℕ
  pub deploy_form : Option F

-- `newModel`, for the names of the binaries and of the functions that the catalog suggests. The index
-- -1 of a form that is not there is 0 here: nothing reads it then.
unfoldable pub new_entries : List (String × String) → List FunctionEntry
new_entries [] = []
new_entries ((binary_name, suggested_name) ∷ requesters) =
    (record {
      binary_name = binary_name;
      suggested_name = suggested_name;
      binary_path = "";
      deploying = false;
      deploy_error = "";
      deployed = none;
    })
    ∷ new_entries requesters

unfoldable pub new_model : {F : Type 0} → List (String × String) → Model F
new_model requesters = record {
  phase = phase_setup;
  cancelled = false;
  width = 120;
  height = 40;
  spinner_index = 0;
  is_starting_status = false;
  setup_output = [];
  setup_stream = false;
  setup_err = none;
  setup_polls = 0;
  dozzle_container_id = [];
  dozzle_url = [];
  dozzle_starting = false;
  dozzle_error = "";
  functions = new_entries requesters;
  selected_function = 0;
  selected_field = 0;
  status_line = preparing;
  stack_started = false;
  stack_starting = false;
  shutting_down = false;
  deploy_function_index = 0;
  deploy_form = none;
}
