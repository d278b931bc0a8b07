-- ===== src/Tester/Update.antt =====
-- servermore-tester/model.go: `Update`.
use servermore.Base.{
  Bool, List, Option, String, [], false, get_elem?, if◌then◌else◌, leb, modify, none, some, str_eq,
  suc, true, ℕ, ◌%◌, ◌&&◌, ◌++◌, ◌+◌, ◌∷◌,
}
use servermore.Base.Maps.{Map, get_or, lookup}
use servermore.Tester.Deployment.{new_deployment_state}
use servermore.Tester.Keys.{
  Updated, begin_shutdown, handle_key, is_dashboard, is_one_of, is_quitting, is_setup,
}
use servermore.Tester.Text.{is_blank, larger_int}
use servermore.Tester.Ui.{
  Command, Forms, FunctionEntry, Model, Msg, building, compilation_failed, compile_done,
  dashboard_tick, dashboard_tick_later, deploy_done, deploy_failed, deploy_function, deployed_as,
  deploying_now, deployment_cancelled, dozzle_failed, dozzle_running, dozzle_start, is_down,
  key_press, log_polling_failed, phase_dashboard, poll_stack, poll_tick_later, quit, run_worker,
  shutdown_failed, stack_is_ready, stack_is_started, stack_poll, stack_poll_tick, stack_ready,
  stack_shutdown_done, start_stack, startup_failed, startup_timed_out, ui_tick, ui_tick_later,
  waiting_for, window_size,
}

-- The paths that `compileFunctions` answered; a name that is missing gives the empty text.
unfoldable pub store_paths : Map String → List FunctionEntry → List FunctionEntry
store_paths binaries [] = []
store_paths binaries (entry ∷ entries) =
    record entry { binary_path = get_or "" (lookup entry.binary_name binaries) }
    ∷ store_paths binaries entries

abbrev pub failed_entry : String → FunctionEntry → FunctionEntry
failed_entry e entry = record entry { deploying = false; deploy_error = e }

abbrev pub deployed_entry : List ℕ → String → FunctionEntry → FunctionEntry
deployed_entry name function_id entry = record entry {
  deploying = false;
  deployed = some (new_deployment_state name function_id);
  deploy_error = "";
}

abbrev pub submitted_entry : FunctionEntry → FunctionEntry
submitted_entry entry = record entry { deploying = true; deploy_error = "" }

-- `tea.WindowSizeMsg` and the messages of the commands that set the stack up.
module _ {F : Type 0} where
  abbrev pub resized : ℕ → ℕ → Model F → Model F
  resized width height m = record m { width = larger_int 80 width; height = larger_int 24 height }

  unfoldable pub after_compile :
      Map String → List ℕ → Option String → Model F → Model F × List Command
  after_compile binaries output (some e) m = (
    record m {
      setup_output = output;
      setup_stream = true;
      stack_starting = false;
      setup_err = some e;
      status_line = compilation_failed;
    },
    [],
  )
  after_compile binaries output none m = (
    record m {
      setup_output = output;
      setup_stream = true;
      stack_starting = true;
      functions = store_paths binaries m.functions;
      is_starting_status = true;
      status_line = building;
    },
    start_stack ∷ [],
  )

  unfoldable pub after_start : List ℕ → Bool → Option String → Model F → Model F × List Command
  after_start output is_started (some e) m = (
    record m {
      setup_output = output;
      stack_started = is_started;
      stack_starting = false;
      setup_stream = false;
      setup_err = some e;
      status_line = startup_failed;
    },
    [],
  )
  after_start output is_started none m = (
    record m {
      setup_output = output;
      stack_started = is_started;
      stack_starting = false;
      setup_stream = false;
      status_line = stack_is_started;
      setup_polls = 0;
    },
    poll_stack ∷ [],
  )

  -- A poll that did not fail: go on to the dashboard, give up after 240 polls, or poll again.
  abbrev pub polled : Bool → Bool → Model F → Model F × List Command
  polled commander_ready gateway_ready m =
      if commander_ready && gateway_ready
      then (
        record m { phase = phase_dashboard; status_line = stack_is_ready },
        dashboard_tick_later ∷ [],
      )
      else (if leb 240 (suc m.setup_polls)
          then (
            record m {
              setup_polls = suc m.setup_polls;
              setup_err = some "stack readiness timed out after 2 minutes";
              status_line = startup_timed_out;
            },
            [],
          )
          else (
            record m {
              setup_polls = suc m.setup_polls;
              status_line = waiting_for commander_ready gateway_ready;
            },
            poll_tick_later ∷ [],
          ))

  unfoldable pub after_poll :
      List ℕ → Bool → Bool → Option String → Model F → Model F × List Command
  unfolding is_blank
  after_poll output commander_ready gateway_ready problem m =
      let seen = record m { setup_output = if is_blank output then m.setup_output else output } in
      elim problem [
        | some e ↦ (record seen { setup_err = some e; status_line = log_polling_failed }, [])
        | none ↦ polled commander_ready gateway_ready seen
      ]

  unfoldable pub after_dozzle : List ℕ → List ℕ → Option String → Model F → Model F × List Command
  after_dozzle container_id url (some e) m =
      (record m { dozzle_starting = false; dozzle_error = e; status_line = dozzle_failed }, [])
  after_dozzle container_id url none m = (
    record m {
      dozzle_starting = false;
      dozzle_container_id = container_id;
      dozzle_url = url;
      dozzle_error = "";
      status_line = dozzle_running;
    },
    [],
  )

  abbrev pub deployed_at :
      ℕ → List ℕ → String → Option String → Model F → Option FunctionEntry → Updated F
  deployed_at i name function_id problem m none = none
  deployed_at i name function_id (some e) m (some function) = some (
    record m {
      functions = modify i (failed_entry e) m.functions;
      status_line = deploy_failed function.binary_name;
    },
    [],
  )
  deployed_at i name function_id none m (some function) = some (
    record m {
      functions = modify i (deployed_entry name function_id) m.functions;
      status_line = deployed_as function.binary_name name function_id;
    },
    run_worker i ∷ [],
  )

  unfoldable pub after_deploy : ℕ → List ℕ → String → Option String → Model F → Updated F
  unfolding get_elem?
  after_deploy i name function_id problem m =
      deployed_at i name function_id problem m (get_elem? m.functions i)

module _ {F X : Type 0} (forms : Forms F X) where
  -- The form's answer to a message. A form that is completed starts the deployment.
  abbrev pub submit_form : F → List Command → Model F → Option FunctionEntry → Updated F
  submit_form form commands m none = none
  submit_form form commands m (some function) = some (
    record m {
      deploy_form = none;
      deploy_function_index = 0;
      functions = modify m.deploy_function_index submitted_entry m.functions;
      status_line = deploying_now function.binary_name;
    },
    commands
        ++ (deploy_function m.deploy_function_index function.binary_path
              (forms.trim_space (forms.name_of form))
            ∷ []),
  )

  unfoldable pub to_form : F → Msg X → Model F → Updated F
  unfolding get_elem?
  to_form form msg m =
      let (answer, commands) = forms.update_form form msg in
      let next = get_or form answer in
      if forms.is_completed next
      then submit_form next commands m (get_elem? m.functions m.deploy_function_index)
      else some (record m { deploy_form = some next }, commands)

  abbrev pub cancel_form : Model F → Model F
  cancel_form m = record m {
    deploy_form = none;
    deploy_function_index = 0;
    status_line = deployment_cancelled;
  }

  -- The branch of `Update` with a form: keys that end the program or the form, else the form's turn.
  unfoldable pub with_form : F → Msg X → Model F → Updated F
  unfolding to_form
  with_form form (key_press key) m =
      if is_one_of key "ctrl+c" "q"
      then some (begin_shutdown m)
      else (if str_eq key "esc" then some (cancel_form m, []) else to_form form (key_press key) m)
  with_form form msg m = to_form form msg m

  -- The last switch of `Update`.
  unfoldable pub without_form : Msg X → Model F → Updated F
  unfolding after_deploy handle_key
  without_form (window_size width height) m = some (resized width height m, [])
  without_form (compile_done binaries output problem) m =
      some (after_compile binaries output problem m)
  without_form (stack_ready output is_started problem) m =
      some (after_start output is_started problem m)
  without_form (stack_poll output commander_ready gateway_ready problem) m =
      some (after_poll output commander_ready gateway_ready problem m)
  without_form stack_poll_tick m = some (m, poll_stack ∷ [])
  without_form (dozzle_start container_id url problem) m =
      some (after_dozzle container_id url problem m)
  without_form (deploy_done i name function_id problem) m =
      after_deploy i name function_id problem m
  without_form (key_press key) m = handle_key forms key m
  without_form msg m = some (m, [])

  abbrev pub while_quitting : Msg X → Model F → Model F × List Command
  while_quitting (stack_shutdown_done (some e)) m =
      (record m { status_line = shutdown_failed }, quit ∷ [])
  while_quitting (stack_shutdown_done none) m = (record m { status_line = is_down }, quit ∷ [])
  while_quitting msg m = (m, [])

  abbrev pub by_form : Msg X → Model F → Option F → Updated F
  by_form msg m (some form) = with_form form msg m
  by_form msg m none = without_form msg m

  abbrev pub on_message : Msg X → Model F → Updated F
  on_message msg m =
      if is_quitting m.phase then some (while_quitting msg m) else by_form msg m m.deploy_form

  unfoldable pub update : Msg X → Model F → Updated F
  unfolding with_form without_form
  update ui_tick m = some (
      if is_setup m.phase
      then (record m { spinner_index = (m.spinner_index + 1) % 4 }, ui_tick_later ∷ [])
      else (m, []))
  update dashboard_tick m = some (m, if is_dashboard m.phase then dashboard_tick_later ∷ [] else [])
  update msg m = on_message msg m

  -- The messages of a run, one after the other; none if one of them panics.
  unfoldable pub update_all : List (Msg X) → Model F → Option (Model F)
  unfolding update
  update_all [] m = some m
  update_all (msg ∷ msgs) m = elim (update msg m) [
    | none ↦ none
    | some (m', commands) ↦ update_all msgs m'
  ]
