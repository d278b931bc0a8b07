-- ===== src/Tester/Runs.antt =====
-- servermore-tester/model.go: sequences of messages.
use servermore.Base.{
  Bool, Bool-cases, List, Option, String, arith, inl, inr, leb, length, lt-get_elem?, none, refl,
  some, str_eq, subst, suc, ℕ, ◌&&◌, ◌<◌, ◌≡◌, ◌≤◌,
}
use servermore.Base.Maps.{Map, get_or}
use servermore.Tester.Deployment.{DeploymentState}
use servermore.Tester.Entries.{HasFunction, IsField, IsGrown-modify, IsGrown-store_paths}
use servermore.Tester.Keys.{action_of, field_count, handle_key, is_one_of, is_quitting, is_setup}
use servermore.Tester.Sound.{
  IsKnown, IsSafe, IsSound, IsSound-IsGrown, begin_shutdown-IsSafe, on_action-IsSafe,
}
use servermore.Tester.Ui.{
  Command, Forms, FunctionEntry, Model, Msg, compile_done, dashboard_tick, deploy_done,
  dozzle_start, key_press, other_msg, stack_poll, stack_poll_tick, stack_ready, stack_shutdown_done,
  ui_tick, window_size,
}
use servermore.Tester.Update.{
  after_compile, after_deploy, after_dozzle, after_poll, after_start, by_form, deployed_entry,
  failed_entry, on_message, submit_form, submitted_entry, to_form, update, while_quitting,
  with_form, without_form,
}

has_more : (deployed : Option DeploymentState) → field_count deployed ≤ 3
has_more none = omega arith
has_more (some d) = omega arith

module _ {F : Type 0} where
  after_deploy-IsSafe :
      (i : ℕ) (name : List ℕ) (function_id : String) (problem : Option String) (m : Model F)
      → IsSound m
      → i < length m.functions
      → IsSafe m (after_deploy i name function_id problem m)
  unfolding after_deploy
  after_deploy-IsSafe i name function_id (some e) m sound below =
      let (entry, found) = lt-get_elem? m.functions i below in
      rw (found, IsSafe, after_deploy)
        (IsSound-IsGrown m _ sound
          (IsGrown-modify i (failed_entry e) m.functions (λ entry. omega arith)))
  after_deploy-IsSafe i name function_id none m sound below =
      let (entry, found) = lt-get_elem? m.functions i below in
      rw (found, IsSafe, after_deploy)
        (IsSound-IsGrown m _ sound (
          IsGrown-modify i (deployed_entry name function_id) m.functions
            (λ entry. has_more entry.deployed)))

  after_compile-IsSafe :
      (binaries : Map String) (output : List ℕ) (problem : Option String) (m : Model F)
      → IsSound m
      → IsSafe m (some (after_compile binaries output problem m))
  unfolding after_compile
  after_compile-IsSafe binaries output (some e) m sound = (sound, refl)
  after_compile-IsSafe binaries output none m sound =
      IsSound-IsGrown m _ sound (IsGrown-store_paths binaries m.functions)

  after_start-IsSafe :
      (output : List ℕ) (is_started : Bool) (problem : Option String) (m : Model F)
      → IsSound m
      → IsSafe m (some (after_start output is_started problem m))
  unfolding after_start
  after_start-IsSafe output is_started (some e) m sound = (sound, refl)
  after_start-IsSafe output is_started none m sound = (sound, refl)

  after_dozzle-IsSafe :
      (container_id url : List ℕ) (problem : Option String) (m : Model F)
      → IsSound m
      → IsSafe m (some (after_dozzle container_id url problem m))
  unfolding after_dozzle
  after_dozzle-IsSafe container_id url (some e) m sound = (sound, refl)
  after_dozzle-IsSafe container_id url none m sound = (sound, refl)

  after_poll-IsSafe :
      (output : List ℕ) (commander_ready gateway_ready : Bool) (problem : Option String)
      (m : Model F)
      → IsSound m
      → IsSafe m (some (after_poll output commander_ready gateway_ready problem m))
  unfolding after_poll
  after_poll-IsSafe output commander_ready gateway_ready (some e) m sound = (sound, refl)
  after_poll-IsSafe output commander_ready gateway_ready none m sound =
      elim (Bool-cases (commander_ready && gateway_ready)) [
        | inl ready ↦ rw ready (sound, refl)
        | inr not_yet ↦ elim (Bool-cases (leb 240 (suc m.setup_polls))) [
          | inl over ↦ rw (not_yet, over) (sound, refl)
          | inr under ↦ rw (not_yet, under) (sound, refl)
        ]
      ]

module _ {F X : Type 0} (forms : Forms F X) where
  handle_key-IsSafe : (key : String) (m : Model F) → IsSound m → IsSafe m (handle_key forms key m)
  unfolding handle_key
  handle_key-IsSafe key m sound = on_action-IsSafe forms (action_of key) m sound

  submit_form-IsSafe :
      (form : F) (commands : List Command) (m : Model F) (entry : FunctionEntry)
      → IsField m.functions m.selected_function m.selected_field
      → IsSafe m (submit_form forms form commands m (some entry))
  submit_form-IsSafe form commands m entry field =
      let (same, keeps) =
        IsGrown-modify m.deploy_function_index submitted_entry m.functions (λ e. omega arith) in
      ((keeps m.selected_function m.selected_field field, tt), same)

  to_form-IsSafe :
      (form : F) (msg : Msg X) (m : Model F)
      → m.deploy_form ≡ some form
      → IsSound m
      → IsSafe m (to_form forms form msg m)
  unfolding to_form
  to_form-IsSafe form msg m shown (field, has) =
      let below : m.deploy_function_index < length m.functions =
        subst (λ f. HasFunction f m.deploy_function_index m.functions) shown has in
      let (entry, found) = lt-get_elem? m.functions m.deploy_function_index below in
      elim (Bool-cases (forms.is_completed (get_or form ((forms.update_form form msg).0)))) [
        | inl completed ↦
            rw (completed, found, IsSafe, to_form)
              (submit_form-IsSafe (get_or form ((forms.update_form form msg).0))
                ((forms.update_form form msg).1) m entry field)
        | inr open_still ↦ rw (open_still, IsSafe, to_form) ((field, below), refl)
      ]

  without_form-IsSafe :
      (msg : Msg X) (m : Model F)
      → IsSound m
      → IsKnown (length m.functions) msg
      → IsSafe m (without_form forms msg m)
  unfolding without_form
  without_form-IsSafe (window_size width height) m sound known = (sound, refl)
  without_form-IsSafe (compile_done binaries output problem) m sound known =
      after_compile-IsSafe binaries output problem m sound
  without_form-IsSafe (stack_ready output is_started problem) m sound known =
      after_start-IsSafe output is_started problem m sound
  without_form-IsSafe (stack_poll output commander_ready gateway_ready problem) m sound known =
      after_poll-IsSafe output commander_ready gateway_ready problem m sound
  without_form-IsSafe stack_poll_tick m sound known = (sound, refl)
  without_form-IsSafe (dozzle_start container_id url problem) m sound known =
      after_dozzle-IsSafe container_id url problem m sound
  without_form-IsSafe (deploy_done i name function_id problem) m sound known =
      after_deploy-IsSafe i name function_id problem m sound known
  without_form-IsSafe (key_press key) m sound known = handle_key-IsSafe key m sound
  without_form-IsSafe ui_tick m sound known = (sound, refl)
  without_form-IsSafe dashboard_tick m sound known = (sound, refl)
  without_form-IsSafe (stack_shutdown_done problem) m sound known = (sound, refl)
  without_form-IsSafe (other_msg x) m sound known = (sound, refl)

  with_form-IsSafe :
      (form : F) (msg : Msg X) (m : Model F)
      → m.deploy_form ≡ some form
      → IsSound m
      → IsSafe m (with_form forms form msg m)
  unfolding with_form
  with_form-IsSafe form (key_press key) m shown (field, has) =
      elim (Bool-cases (is_one_of key "ctrl+c" "q")) [
        | inl quits ↦ rw quits (begin_shutdown-IsSafe m (field, has))
        | inr stays ↦ elim (Bool-cases (str_eq key "esc")) [
          | inl cancels ↦ rw (stays, cancels) ((field, tt), refl)
          | inr types ↦ rw (stays, types) (to_form-IsSafe form (key_press key) m shown (field, has))
        ]
      ]
  with_form-IsSafe form msg m shown sound = to_form-IsSafe form msg m shown sound

  by_form-IsSafe :
      (msg : Msg X) (m : Model F) (shown : Option F)
      → m.deploy_form ≡ shown
      → IsSound m
      → IsKnown (length m.functions) msg
      → IsSafe m (by_form forms msg m shown)
  by_form-IsSafe msg m none hidden sound known = without_form-IsSafe msg m sound known
  by_form-IsSafe msg m (some form) shown sound known = with_form-IsSafe form msg m shown sound

  while_quitting-IsSafe :
      (msg : Msg X) (m : Model F) → IsSound m → IsSafe m (some (while_quitting forms msg m))
  while_quitting-IsSafe (stack_shutdown_done (some e)) m sound = (sound, refl)
  while_quitting-IsSafe (stack_shutdown_done none) m sound = (sound, refl)
  while_quitting-IsSafe msg m sound = (sound, refl)

  on_message-IsSafe :
      (msg : Msg X) (m : Model F)
      → IsSound m
      → IsKnown (length m.functions) msg
      → IsSafe m (on_message forms msg m)
  on_message-IsSafe msg m sound known = elim (Bool-cases (is_quitting m.phase)) [
    | inl late ↦ rw late (while_quitting-IsSafe msg m sound)
    | inr running ↦ rw running (by_form-IsSafe msg m m.deploy_form refl sound known)
  ]

  pub update-IsSafe :
      (msg : Msg X) (m : Model F)
      → IsSound m
      → IsKnown (length m.functions) msg
      → IsSafe m (update forms msg m)
  unfolding update
  update-IsSafe ui_tick m sound known = elim (Bool-cases (is_setup m.phase)) [
    | inl early ↦ rw early (sound, refl)
    | inr late ↦ rw late (sound, refl)
  ]
  update-IsSafe dashboard_tick m sound known = (sound, refl)
  update-IsSafe msg m sound known = on_message-IsSafe msg m sound known
