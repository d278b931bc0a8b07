-- ===== src/Tester/Container.antt =====
-- servermore-tester: what becomes of a container whose port cannot be read.
use servermore.Base.{
  Bool-cases, List, String, [], ap, false, if◌then◌else◌, inl, inr, none, refl, some, ℕ, ◌∙◌, ◌∷◌,
  ◌≡◌,
}
use servermore.Tester.Keys.{ask_dozzle, is_quitting}
use servermore.Tester.Port.{trimmed}
use servermore.Tester.Stack.{
  Shell, asked_port, compose_down, container_port, named_dozzle, ran_dozzle, run_dozzle,
  shutdown_commands, start_dozzle_now,
}
use servermore.Tester.Ui.{Forms, Model, dozzle_failed, dozzle_start, start_dozzle}
use servermore.Tester.Update.{after_dozzle, update, without_form}

module _ {F X : Type 0} (forms : Forms F X) (shell : Shell) where
  lost_id :
      (output port_output : List ℕ) (b : ℕ) (id : List ℕ) (e : String)
      → shell.run run_dozzle ≡ (output, none)
      → trimmed output ≡ b ∷ id
      → shell.run (container_port (b ∷ id)) ≡ (port_output, some e)
      → start_dozzle_now shell ≡ (b ∷ id, [], some e)
  unfolding start_dozzle_now
  lost_id output port_output b id e ran named failed =
      ap (ran_dozzle shell) ran
      ∙ ap (named_dozzle shell) named
      ∙ ap (asked_port shell (b ∷ id)) failed

  -- When docker has started Dozzle, but the question for its port fails, the id of the running container
  -- is answered beside the error and `Update` drops it: the container is not among what `Shutdown`
  -- removes, and the key d starts another one.
  pub start_dozzle_now-lost :
      (output port_output : List ℕ) (b : ℕ) (id : List ℕ) (e : String) (m : Model F)
      → shell.run run_dozzle ≡ (output, none)
      → trimmed output ≡ b ∷ id
      → shell.run (container_port (b ∷ id)) ≡ (port_output, some e)
      → m.dozzle_container_id ≡ []
      → is_quitting m.phase ≡ false
      → m.deploy_form ≡ none
      → (m' : Model F) × (update forms
            (dozzle_start
              ((start_dozzle_now shell).0)
              ((start_dozzle_now shell).1)
              ((start_dozzle_now shell).2))
            m
          ≡ some (m', []))
        × (shutdown_commands m' ≡ (if m.stack_started then compose_down ∷ [] else []))
        × ((ask_dozzle m').1 ≡ start_dozzle ∷ [])
  unfolding update without_form after_dozzle shutdown_commands ask_dozzle
  start_dozzle_now-lost output port_output b id e m ran named failed no_id running hidden =
      let m' = record m {
        dozzle_starting = false;
        dozzle_error = e;
        status_line = dozzle_failed;
      } in
      (
        m',
        rw (lost_id output port_output b id e ran named failed) (rw (running, hidden) refl),
        elim (Bool-cases m.stack_started) [
          | inl up ↦ rw (up, no_id) refl
          | inr down ↦ rw down refl
        ],
        rw no_id refl,
      )
