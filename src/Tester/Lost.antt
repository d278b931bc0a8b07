-- ===== src/Tester/Lost.antt =====
-- servermore-tester/model.go: a deployment that ends while a form is open.
use servermore.Base.{
  All, Bool-cases, List, Option, Option-cases, String, [], ap, false, get_elem?, inl, inr, none,
  not, refl, some, str_eq, subst, sym, ℕ, ◌&&◌, ◌+◌, ◌-◌, ◌∙◌, ◌∷◌, ◌≡◌,
}
use servermore.Base.Maps.{get_or, is_some}
use servermore.Tester.Deployment.{minus_one, plus_one}
use servermore.Tester.Keys.{
  Action, Updated, action_of, adjusted_setting, decrease, dozzle, enter, enter_on, field_down,
  field_up, handle_key, increase, is_one_of, is_quitting, is_setup, next_function, on_action,
  on_dashboard, open_deploy_form, previous_function, quit_now, toggle_requests, toggled, unbound,
}
use servermore.Tester.Stuck.{
  IsApart, IsStuck, IsStuck-modify, IsStuck-store_paths, StaysStuck, adjusted_setting-IsStuck,
  after_poll-IsStuck, ask_dozzle-IsStuck, at_selected-IsStuck, begin_shutdown-IsStuck,
  deployed_at-IsStuck, move_field-IsStuck, select_function-IsStuck, toggled-IsStuck,
}
use servermore.Tester.Ui.{
  Command, Forms, FunctionEntry, Model, Msg, compile_done, dashboard_tick, deploy_done,
  dozzle_start, key_press, stack_poll, stack_ready, stack_shutdown_done, ui_tick,
}
use servermore.Tester.Update.{
  after_compile, after_deploy, after_dozzle, after_start, by_form, on_message, submit_form,
  submitted_entry, to_form, update, update_all, while_quitting, with_form, without_form,
}

module _ {F X : Type 0} (forms : Forms F X) (i : ℕ) where
  enter_on-IsStuck :
      (m : Model F) (at : Option FunctionEntry)
      → IsStuck i m.functions
      → StaysStuck i (enter_on forms m at)
  unfolding open_deploy_form
  enter_on-IsStuck m none stuck = tt
  enter_on-IsStuck m (some entry) stuck =
      elim (Bool-cases (not (is_some entry.deployed) && not entry.deploying)) [
        | inl fresh ↦ rw fresh stuck
        | inr deployed ↦ rw deployed stuck
      ]

  on_dashboard-IsStuck :
      (action : Action) (m : Model F)
      → IsStuck i m.functions
      → StaysStuck i (on_dashboard forms action m)
  unfolding on_dashboard
  on_dashboard-IsStuck quit_now m stuck = stuck
  on_dashboard-IsStuck field_up m stuck = move_field-IsStuck i (m.selected_field - 1) m stuck
  on_dashboard-IsStuck field_down m stuck = move_field-IsStuck i (m.selected_field + 1) m stuck
  on_dashboard-IsStuck dozzle m stuck = ask_dozzle-IsStuck i m stuck
  on_dashboard-IsStuck previous_function m stuck =
      select_function-IsStuck i (m.selected_function - 1) m stuck
  on_dashboard-IsStuck next_function m stuck =
      select_function-IsStuck i (m.selected_function + 1) m stuck
  on_dashboard-IsStuck toggle_requests m stuck =
      at_selected-IsStuck i m (toggled m) (toggled-IsStuck i m stuck)
  on_dashboard-IsStuck increase m stuck =
      at_selected-IsStuck i m (adjusted_setting plus_one m)
        (adjusted_setting-IsStuck i plus_one m stuck)
  on_dashboard-IsStuck decrease m stuck =
      at_selected-IsStuck i m (adjusted_setting minus_one m)
        (adjusted_setting-IsStuck i minus_one m stuck)
  on_dashboard-IsStuck enter m stuck =
      enter_on-IsStuck m (get_elem? m.functions m.selected_function) stuck
  on_dashboard-IsStuck unbound m stuck = stuck

  on_action-IsStuck :
      (action : Action) (m : Model F)
      → IsStuck i m.functions
      → StaysStuck i (on_action forms action m)
  on_action-IsStuck action m stuck = elim (Bool-cases (is_setup m.phase)) [
    | inl early ↦ elim action as (λ a. StaysStuck i (on_action forms a m)) [
      | quit_now ↦ begin_shutdown-IsStuck i m stuck
      | _ ↦ rw early stuck
    ]
    | inr late ↦ elim action as (λ a. StaysStuck i (on_action forms a m)) [
      | quit_now ↦ begin_shutdown-IsStuck i m stuck
      | a ↦ rw late (on_dashboard-IsStuck a m stuck)
    ]
  ]

  submit_form-IsStuck :
      (form : F) (commands : List Command) (m : Model F) (at : Option FunctionEntry)
      → IsStuck i m.functions
      → StaysStuck i (submit_form forms form commands m at)
  submit_form-IsStuck form commands m none stuck = tt
  submit_form-IsStuck form commands m (some entry) stuck =
      IsStuck-modify i m.deploy_function_index submitted_entry m.functions
        (λ e begun missing. (refl, missing)) stuck

  to_form-IsStuck :
      (form : F) (msg : Msg X) (m : Model F)
      → IsStuck i m.functions
      → StaysStuck i (to_form forms form msg m)
  unfolding to_form
  to_form-IsStuck form msg m stuck =
      elim (Bool-cases (forms.is_completed (get_or form ((forms.update_form form msg).0)))) [
        | inl completed ↦
            rw (completed, StaysStuck)
              (submit_form-IsStuck (get_or form ((forms.update_form form msg).0))
                ((forms.update_form form msg).1) m (get_elem? m.functions m.deploy_function_index)
                stuck)
        | inr not_yet ↦ rw (not_yet, StaysStuck) stuck
      ]

  with_form-IsStuck :
      (form : F) (msg : Msg X) (m : Model F)
      → IsStuck i m.functions
      → StaysStuck i (with_form forms form msg m)
  unfolding with_form
  with_form-IsStuck form (key_press key) m stuck = elim (Bool-cases (is_one_of key "ctrl+c" "q")) [
    | inl quits ↦ rw quits (begin_shutdown-IsStuck i m stuck)
    | inr stays ↦ elim (Bool-cases (str_eq key "esc")) [
      | inl cancels ↦ rw (stays, cancels) stuck
      | inr types ↦ rw (stays, types) (to_form-IsStuck form (key_press key) m stuck)
    ]
  ]
  with_form-IsStuck form msg m stuck = to_form-IsStuck form msg m stuck

  without_form-IsStuck :
      (msg : Msg X) (m : Model F)
      → IsApart i msg
      → IsStuck i m.functions
      → StaysStuck i (without_form forms msg m)
  unfolding without_form handle_key after_compile after_start after_dozzle after_deploy
  without_form-IsStuck (compile_done binaries output (some e)) m apart stuck = stuck
  without_form-IsStuck (compile_done binaries output none) m apart stuck =
      IsStuck-store_paths i binaries m.functions stuck
  without_form-IsStuck (stack_ready output is_started (some e)) m apart stuck = stuck
  without_form-IsStuck (stack_ready output is_started none) m apart stuck = stuck
  without_form-IsStuck (stack_poll output commander_ready gateway_ready problem) m apart stuck =
      after_poll-IsStuck i output commander_ready gateway_ready problem m stuck
  without_form-IsStuck (dozzle_start container_id url (some e)) m apart stuck = stuck
  without_form-IsStuck (dozzle_start container_id url none) m apart stuck = stuck
  without_form-IsStuck (deploy_done j name function_id problem) m apart stuck =
      deployed_at-IsStuck i j name function_id problem m (get_elem? m.functions j) apart stuck
  without_form-IsStuck (key_press key) m apart stuck = on_action-IsStuck (action_of key) m stuck
  without_form-IsStuck msg m apart stuck = stuck

  by_form-IsStuck :
      (msg : Msg X) (m : Model F) (shown : Option F)
      → IsApart i msg
      → IsStuck i m.functions
      → StaysStuck i (by_form forms msg m shown)
  by_form-IsStuck msg m none apart stuck = without_form-IsStuck msg m apart stuck
  by_form-IsStuck msg m (some form) apart stuck = with_form-IsStuck form msg m stuck

  while_quitting-IsStuck :
      (msg : Msg X) (m : Model F)
      → IsStuck i m.functions
      → IsStuck i (((while_quitting forms msg m).0).functions)
  while_quitting-IsStuck (stack_shutdown_done (some e)) m stuck = stuck
  while_quitting-IsStuck (stack_shutdown_done none) m stuck = stuck
  while_quitting-IsStuck msg m stuck = stuck

  on_message-IsStuck :
      (msg : Msg X) (m : Model F)
      → IsApart i msg
      → IsStuck i m.functions
      → StaysStuck i (on_message forms msg m)
  on_message-IsStuck msg m apart stuck = elim (Bool-cases (is_quitting m.phase)) [
    | inl late ↦ rw late (while_quitting-IsStuck msg m stuck)
    | inr running ↦ rw running (by_form-IsStuck msg m m.deploy_form apart stuck)
  ]

  update-IsStuck :
      (msg : Msg X) (m : Model F)
      → IsApart i msg
      → IsStuck i m.functions
      → StaysStuck i (update forms msg m)
  unfolding update
  update-IsStuck ui_tick m apart stuck = elim (Bool-cases (is_setup m.phase)) [
    | inl early ↦ rw early stuck
    | inr late ↦ rw late stuck
  ]
  update-IsStuck dashboard_tick m apart stuck = stuck
  update-IsStuck msg m apart stuck = on_message-IsStuck msg m apart stuck

  some-IsStuck :
      (answer : Updated F) (m' : Model F) (commands : List Command)
      → answer ≡ some (m', commands)
      → StaysStuck i answer
      → IsStuck i m'.functions
  some-IsStuck answer m' commands e stuck = subst (StaysStuck i) e stuck

  update_all-IsStuck :
      (msgs : List (Msg X)) (m m' : Model F)
      → All (IsApart i) msgs
      → IsStuck i m.functions
      → update_all forms msgs m ≡ some m'
      → IsStuck i m'.functions
  unfolding update_all
  update_all-IsStuck [] m m' apart stuck e =
      subst (λ x. IsStuck i x.functions) (ap (get_or m) e) stuck
  update_all-IsStuck (msg ∷ msgs) m m' (apart, later) stuck e =
      elim (Option-cases (update forms msg m)) [
        | inl panics ↦ let impossible = rw (panics, update_all) at e in cc
        | inr ((m1, commands), answer) ↦
            update_all-IsStuck msgs m1 m' later
              (some-IsStuck (update forms msg m) m1 commands answer
                (update-IsStuck msg m apart stuck))
              (rw (answer, update_all) at e)
      ]

  -- While the form of a function is open, the message that another deployment has ended goes to the
  -- form and is lost: the function whose deployment has ended, with an error or without, still counts as
  -- being deployed, without a deployment, after this message and after any others, as long as no other
  -- says that its deployment has ended.
  pub deploy_done-IsStuck :
      (name : List ℕ) (function_id : String) (problem : Option String) (m m' : Model F) (form : F)
      (msgs : List (Msg X))
      → m.deploy_form ≡ some form
      → is_quitting m.phase ≡ false
      → IsStuck i m.functions
      → All (IsApart i) msgs
      → update_all forms (deploy_done i name function_id problem ∷ msgs) m ≡ some m'
      → IsStuck i m'.functions
  unfolding update_all update with_form
  deploy_done-IsStuck name function_id problem m m' form msgs shown running stuck apart e =
      let msg : Msg X = deploy_done i name function_id problem in
      let to : update forms msg m ≡ to_form forms form msg m = rw (running, shown) refl in
      elim (Option-cases (update forms msg m)) [
        | inl panics ↦ let impossible = rw (panics, update_all) at e in cc
        | inr ((m1, commands), answer) ↦
            update_all-IsStuck msgs m1 m' apart
              (some-IsStuck (to_form forms form msg m) m1 commands (sym to ∙ answer)
                (to_form-IsStuck form msg m stuck))
              (rw (answer, update_all) at e)
      ]
