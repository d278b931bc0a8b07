-- ===== src/Tester/Tests.antt =====
-- Runs of the load tester, and its theorems at concrete inputs.
use servermore.Base.{
  Bool, List, Option, String, [], arith, false, get_elem?, if◌then◌else◌, length, modify, none,
  refl, slash, some, str_eq, true, ℕ, ◌++◌, ◌+◌, ◌-◌, ◌∷◌, ◌≡◌, ◌≤◌,
}
use servermore.Base.Results.{ok}
use servermore.Tester.Balance.{IsBalanced, apply_events-IsBalanced}
use servermore.Tester.Container.{start_dozzle_now-lost}
use servermore.Tester.Deployment.{DeploymentState, minus_one, new_deployment_state, stop}
use servermore.Tester.History.{new_model-IsSafe}
use servermore.Tester.Keys.{
  action_of, ask_dozzle, begin_shutdown, handle_key, is_quitting, on_dashboard,
}
use servermore.Tester.Log.{
  kept, add_line, add_lines, add_lines-IsBounded, bounded, drop, new_rolling_log, trim_line_end,
}
use servermore.Tester.Lost.{deploy_done-IsStuck}
use servermore.Tester.Port.{
  all_digits, colon, is_number, newline, parse_published_port, trim_left, trim_right, trimmed,
}
use servermore.Tester.PortPrint.{parse_published_port-print}
use servermore.Tester.Shutdown.{begin_shutdown-quits}
use servermore.Tester.Sound.{IsSound}
use servermore.Tester.Spin.{at_top, loop_steps, loop_steps-spinning, spinning, steps_of}
use servermore.Tester.Stack.{
  Docker, Shell, compose_down, run_dozzle, shutdown_commands, start_dozzle_now,
}
use servermore.Tester.Stuck.{IsStuck}
use servermore.Tester.Text.{is_blank}
use servermore.Tester.Ui.{
  Forms, Model, Msg, compile_done, deploy_done, dozzle_start, form_command, key_press, new_entries,
  new_model, phase_dashboard, quit, shutdown_stack, stack_poll, stack_ready, stack_shutdown_done,
  start_dozzle,
}
use servermore.Tester.Update.{
  after_deploy, after_dozzle, to_form, update, update_all, with_form, without_form,
}
use servermore.Tester.Worker.{
  WorkerEvent, adjust_event, answer_event, apply_events, loop_event, start_loop, stop_event,
}

-- A form that is completed by the message of a key "enter", and names the function "x".
abbrev entered : Msg String → Bool
entered (key_press key) = str_eq key "enter"
entered _ = false

abbrev next_form : Bool → Bool → Bool
next_form true entered_now = true
next_form false entered_now = entered_now

abbrev forms : Forms Bool String
forms = record {
  new_form = λ name width. false;
  init = λ form. form_command 0 ∷ [];
  update_form = λ form msg. (some (next_form form (entered msg)), []);
  is_completed = λ form. form;
  name_of = λ form. 120 ∷ [];
  trim_space = λ name. name;
}

abbrev two : List (String × String)
two = ("hello", "hello-demo") ∷ ("echo", "echo-demo") ∷ []

-- The stack comes up, the second function is deployed, and its batches grow.
abbrev session : List (Msg String)
session =
    compile_done (("hello", "/t/hello") ∷ ("echo", "/t/echo") ∷ []) [] none
    ∷ stack_ready [] true none
    ∷ stack_poll [] true true none
    ∷ key_press "right"
    ∷ key_press "enter"
    ∷ key_press "enter"
    ∷ deploy_done 1 (120 ∷ []) "7" none
    ∷ key_press "down"
    ∷ key_press "+"
    ∷ []

new_model-IsSafe_example :
    (m : Model Bool) × (update_all forms session (new_model two) ≡ some m)
    × IsSound m
    × (length m.functions ≡ length two)
new_model-IsSafe_example =
    new_model-IsSafe forms two session (omega arith)
      (tt, (tt, (tt, (tt, (tt, (tt, (omega arith, (tt, (tt, tt)))))))))

unfoldable tester_model : Unit {0}
unfolding new_model new_entries update update_all with_form without_form to_form begin_shutdown
    after_deploy after_dozzle handle_key action_of on_dashboard get_elem? modify
tester_model = tt

running : is_quitting ((new_model {F = Bool} two).phase) ≡ false
unfolding new_model
running = refl

not_down : (new_model {F = Bool} two).shutting_down ≡ false
unfolding new_model
not_down = refl

begin_shutdown-quits_example :
    (m1 : Model Bool) × (m2 : Model Bool) × (m3 : Model Bool) × (update forms
        (key_press "q")
        (new_model two)
      ≡ some (m1, shutdown_stack ∷ []))
    × (m1.cancelled ≡ true)
    × (update_all forms session m1 ≡ some m2)
    × (update forms (stack_shutdown_done none) m2 ≡ some (m3, quit ∷ []))
begin_shutdown-quits_example =
    begin_shutdown-quits forms "q" (new_model two) session none refl running not_down

-- The first function is being deployed while the form of the second is open.
abbrev form_open : Model Bool
form_open = record (new_model two) {
  phase = phase_dashboard;
  deploy_form = some false;
  deploy_function_index = 1;
  functions =
      (record {
        binary_name = "hello";
        suggested_name = "hello-demo";
        binary_path = "/t/hello";
        deploying = true;
        deploy_error = "";
        deployed = none;
      })
      ∷ (record {
        binary_name = "echo";
        suggested_name = "echo-demo";
        binary_path = "/t/echo";
        deploying = false;
        deploy_error = "";
        deployed = none;
      })
      ∷ [];
}

lost_message :
    update_all forms (deploy_done 0 (120 ∷ []) "7" none ∷ key_press "up" ∷ []) form_open
    ≡ some form_open
unfolding tester_model
lost_message = refl

first-IsStuck : IsStuck 0 form_open.functions
unfolding get_elem?
first-IsStuck = (
  record {
    binary_name = "hello";
    suggested_name = "hello-demo";
    binary_path = "/t/hello";
    deploying = true;
    deploy_error = "";
    deployed = none;
  },
  refl,
  refl,
  refl,
)

deploy_done-IsStuck_example : IsStuck 0 form_open.functions
deploy_done-IsStuck_example =
    deploy_done-IsStuck forms 0 (120 ∷ []) "7" none form_open form_open false (key_press "up" ∷ [])
      refl refl first-IsStuck (tt, tt) lost_message

abbrev events : List WorkerEvent
events =
    loop_event true 1
    ∷ loop_event true 2
    ∷ loop_event true 3
    ∷ answer_event (record { method = ""; path = slash ∷ []; body = []; headers = [] })
        (ok (200, 111 ∷ [])) 5 4
    ∷ adjust_event 0 minus_one
    ∷ stop_event
    ∷ loop_event false 5
    ∷ []

apply_events-IsBalanced_example :
    IsBalanced (apply_events events (start_loop (new_deployment_state (120 ∷ []) "7")))
apply_events-IsBalanced_example = apply_events-IsBalanced (120 ∷ []) "7" events

abbrev stopped_deployment : DeploymentState
stopped_deployment = stop (new_deployment_state (120 ∷ []) "7")

loop_steps-spinning_example :
    (d' : DeploymentState) × (loop_steps
        (steps_of 2)
        (λ n. false)
        (λ n. n)
        (at_top (spinning 5 stopped_deployment) 0)
      ≡ at_top (spinning 5 d') (2 + 0))
    × (d'.stats.requests_sent ≡ 2 + stopped_deployment.stats.requests_sent)
    × (d'.cancelled ≡ stopped_deployment.cancelled)
loop_steps-spinning_example =
    loop_steps-spinning 2 5 0 (λ n. false) (λ n. n) stopped_deployment refl

-- Three lines, one of them blank, and one with its line end.
abbrev texts : List (List ℕ)
texts = (97 ∷ []) ∷ (32 ∷ 10 ∷ []) ∷ (98 ∷ 13 ∷ 10 ∷ []) ∷ (99 ∷ []) ∷ []

last_two : (add_lines texts (new_rolling_log 2)).lines ≡ (98 ∷ []) ∷ (99 ∷ []) ∷ []
unfolding add_lines add_line new_rolling_log bounded drop trim_line_end is_blank
last_two = refl

add_lines-IsBounded_example :
    ((add_lines texts (new_rolling_log 2)).lines ≡ drop (length (kept texts) - 2) (kept texts))
    × (length ((add_lines texts (new_rolling_log 2)).lines) ≤ 2)
add_lines-IsBounded_example = add_lines-IsBounded 2 texts (omega arith)

-- "[::]:80" and another line.
abbrev host : List ℕ
host = 91 ∷ 58 ∷ 58 ∷ 93 ∷ []

number : is_number (56 ∷ 48 ∷ []) ≡ true
unfolding all_digits
number = refl

parse_published_port-print_example :
    parse_published_port ((host ++ (colon ∷ 56 ∷ 48 ∷ [])) ++ (newline ∷ 120 ∷ []))
    ≡ some (56 ∷ 48 ∷ [])
parse_published_port-print_example =
    parse_published_port-print host (56 ∷ 48 ∷ []) (120 ∷ []) (refl, (refl, (refl, (refl, tt))))
      (refl, (refl, tt)) number

-- Dozzle runs in the container "c", but `docker port` fails.
abbrev answers : Docker → List ℕ × Option String
answers run_dozzle = (99 ∷ 10 ∷ [], none)
answers _ = ([], some "failed")

abbrev shell : Shell
shell = record { run = answers; is_commander_ready = true; is_gateway_ready = true }

abbrev on_stack : Model Bool
on_stack = record (new_model two) {
  phase = phase_dashboard;
  stack_started = true;
  dozzle_container_id = [];
  deploy_form = none;
}

named_container : trimmed (99 ∷ 10 ∷ []) ≡ 99 ∷ []
unfolding trim_left trim_right is_blank
named_container = refl

start_dozzle_now-lost_example :
    (m' : Model Bool) × (update forms
        (dozzle_start
          ((start_dozzle_now shell).0)
          ((start_dozzle_now shell).1)
          ((start_dozzle_now shell).2))
        on_stack
      ≡ some (m', []))
    × (shutdown_commands m' ≡ (if on_stack.stack_started then compose_down ∷ [] else []))
    × ((ask_dozzle m').1 ≡ start_dozzle ∷ [])
start_dozzle_now-lost_example =
    start_dozzle_now-lost forms shell (99 ∷ 10 ∷ []) [] 99 [] "failed" on_stack refl named_container
      refl refl refl refl
