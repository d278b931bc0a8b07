-- ===== src/Tester/Shutdown.antt =====
-- servermore-tester/model.go: the end of the program.
use servermore.Base.{List, Option, String, [], ap, false, none, refl, some, true, ◌∙◌, ◌∷◌, ◌≡◌}
use servermore.Tester.Keys.{action_of, begin_shutdown, handle_key, is_one_of, is_quitting}
use servermore.Tester.Ui.{
  Command, Forms, Model, Msg, dashboard_tick, going_down, is_down, key_press, phase_quitting, quit,
  shutdown_failed, shutdown_stack, stack_shutdown_done, ui_tick,
}
use servermore.Tester.Update.{by_form, update, update_all, while_quitting, with_form, without_form}

module _ {F X : Type 0} (forms : Forms F X) where
  while_quitting-phase :
      (msg : Msg X) (m : Model F) → ((while_quitting forms msg m).0).phase ≡ m.phase
  while_quitting-phase (stack_shutdown_done (some e)) m = refl
  while_quitting-phase (stack_shutdown_done none) m = refl
  while_quitting-phase msg m = refl

  stays_quitting :
      (msg : Msg X) (m : Model F)
      → m.phase ≡ phase_quitting
      → (m' : Model F) × (commands : List Command) × (update forms msg m ≡ some (m', commands))
        × (m'.phase ≡ phase_quitting)
  unfolding update
  stays_quitting ui_tick m e = (m, [], rw e refl, e)
  stays_quitting dashboard_tick m e = (m, [], rw e refl, e)
  stays_quitting msg m e = (
    (while_quitting forms msg m).0,
    (while_quitting forms msg m).1,
    rw e refl,
    while_quitting-phase msg m ∙ e,
  )

  keeps_quitting :
      (msgs : List (Msg X)) (m : Model F)
      → m.phase ≡ phase_quitting
      → (m' : Model F) × (update_all forms msgs m ≡ some m') × (m'.phase ≡ phase_quitting)
  unfolding update_all
  keeps_quitting [] m e = (m, refl, e)
  keeps_quitting (msg ∷ msgs) m e =
      let (m1, commands, answer, e1) = stays_quitting msg m e in
      let (m', reached, e') = keeps_quitting msgs m1 e1 in (m', rw (answer, update_all) reached, e')

  quits :
      (problem : Option String) (m : Model F)
      → m.phase ≡ phase_quitting
      → (m' : Model F) × (update forms (stack_shutdown_done problem) m ≡ some (m', quit ∷ []))
  unfolding update
  quits (some e) m late = (record m { status_line = shutdown_failed }, rw late refl)
  quits none m late = (record m { status_line = is_down }, rw late refl)

  begins :
      (key : String) (m : Model F) (shown : Option F)
      → is_one_of key "ctrl+c" "q" ≡ true
      → by_form forms (key_press key) m shown ≡ some (begin_shutdown m)
  unfolding with_form without_form handle_key action_of
  begins key m none e = rw (e, handle_key, action_of, without_form) refl
  begins key m (some form) e = rw e refl

  begin_shutdown-first :
      (m : Model F)
      → m.shutting_down ≡ false
      → begin_shutdown m ≡ (
        record m {
          shutting_down = true;
          phase = phase_quitting;
          status_line = going_down;
          cancelled = true;
        },
        shutdown_stack ∷ [],
      )
  unfolding begin_shutdown
  begin_shutdown-first m e = rw e refl

  -- ctrl+c or q, with the form open or not, in the setup or on the dashboard, cancels the context and
  -- asks to shut the stack down; whatever messages come then, none panics, and the one that the stack
  -- is down, with an error or without, ends the program.
  pub begin_shutdown-quits :
      (key : String) (m : Model F) (msgs : List (Msg X)) (problem : Option String)
      → is_one_of key "ctrl+c" "q" ≡ true
      → is_quitting m.phase ≡ false
      → m.shutting_down ≡ false
      → (m1 : Model F) × (m2 : Model F) × (m3 : Model F) × (update forms (key_press key) m
          ≡ some (m1, shutdown_stack ∷ []))
        × (m1.cancelled ≡ true)
        × (update_all forms msgs m1 ≡ some m2)
        × (update forms (stack_shutdown_done problem) m2 ≡ some (m3, quit ∷ []))
  unfolding update
  begin_shutdown-quits key m msgs problem e running first =
      let m1 = record m {
        shutting_down = true;
        phase = phase_quitting;
        status_line = going_down;
        cancelled = true;
      } in
      let (m2, reached, late) = keeps_quitting msgs m1 refl in
      let (m3, ended) = quits problem m2 late in
      (
        m1,
        m2,
        m3,
        rw running (begins key m m.deploy_form e ∙ ap some (begin_shutdown-first m first)),
        refl,
        reached,
        ended,
      )
