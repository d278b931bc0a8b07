-- ===== src/Tester/Stack.antt =====
-- servermore-tester/setup.go: the commands of docker, and `Shutdown` of servermore-tester/model.go. What
-- a command prints, and whether it fails, is a parameter; the arguments are named, not written out.
use servermore.Base.{
  Bool, List, Option, String, [], false, if◌then◌else◌, none, not, some, true, ℕ, ◌++◌, ◌∷◌,
}
use servermore.Tester.Port.{parse_published_port, trim_left, trim_right, trimmed}
use servermore.Tester.Text.{is_empty}
use servermore.Tester.Ui.{Model}

pub data Docker : Type 0 where
  compose_down compose_pull compose_build compose_up compose_logs : Docker
  run_dozzle : Docker
  container_port remove_container : (container_id : List ℕ) → Docker

-- `runCommand`: the output, trimmed, with the error if there is one. The two probes of the services
-- are HTTP requests.
pub record Shell : Type 0 where
  pub run : Docker → List ℕ × Option String
  pub is_commander_ready : Bool
  pub is_gateway_ready : Bool

-- "http://127.0.0.1:"
abbrev local_url : List ℕ
local_url =
    104 ∷ 116 ∷ 116 ∷ 112 ∷ 58 ∷ 47 ∷ 47 ∷ 49 ∷ 50 ∷ 55 ∷ 46 ∷ 48 ∷ 46 ∷ 48 ∷ 46 ∷ 49 ∷ 58 ∷ []

-- `startStack`: whether the stack was started, the error, and the commands that were run. A failure to
-- take the old stack down is only logged.
abbrev pub Started : Type 0
Started = Bool × Option String × List Docker

module _ (shell : Shell) where
  abbrev pub stack_from : List Docker → List Docker → Started
  stack_from ran [] = (true, none, ran)
  stack_from ran (command ∷ commands) =
      let rest = stack_from (ran ++ (command ∷ [])) commands in
      elim ((shell.run command).1) [ some e ↦ (false, some e, ran ++ (command ∷ [])) | none ↦ rest ]

  unfoldable pub start_stack_now : Started
  start_stack_now = stack_from (compose_down ∷ []) (compose_pull ∷ compose_build ∷ compose_up ∷ [])

  -- `pollStack`: the output, whether the services are ready, and the error.
  unfoldable pub poll_stack_now : List ℕ × Bool × Bool × Option String
  poll_stack_now =
      let (output, problem) = shell.run compose_logs in
      elim problem [
        | some e ↦ (output, false, false, some e)
        | none ↦ (output, shell.is_commander_ready, shell.is_gateway_ready, none)
      ]

  unfoldable pub stop_stack : Option String
  stop_stack = (shell.run compose_down).1

  abbrev pub published : List ℕ → Option (List ℕ) → List ℕ × List ℕ × Option String
  published container_id none = (container_id, [], some "could not parse published port")
  published container_id (some port) = (container_id, local_url ++ port, none)

  abbrev pub asked_port : List ℕ → List ℕ × Option String → List ℕ × List ℕ × Option String
  asked_port container_id (output, some e) = (container_id, [], some e)
  asked_port container_id (output, none) = published container_id (parse_published_port output)

  abbrev pub named_dozzle : List ℕ → List ℕ × List ℕ × Option String
  named_dozzle [] = ([], [], some "docker run did not return a container id")
  named_dozzle (b ∷ id) = asked_port (b ∷ id) (shell.run (container_port (b ∷ id)))

  abbrev pub ran_dozzle : List ℕ × Option String → List ℕ × List ℕ × Option String
  ran_dozzle (output, some e) = ([], [], some e)
  ran_dozzle (output, none) = named_dozzle (trimmed output)

  -- `startDozzle`: the container's id, its address and the error.
  unfoldable pub start_dozzle_now : List ℕ × List ℕ × Option String
  unfolding parse_published_port trim_left trim_right
  start_dozzle_now = ran_dozzle (shell.run run_dozzle)

-- The commands of `Shutdown`, once the workers have ended: the container that the model knows is
-- removed, and then the stack is taken down.
unfoldable pub shutdown_commands : {F : Type 0} → Model F → List Docker
shutdown_commands m =
    if not m.stack_started
    then []
    else ((if is_empty m.dozzle_container_id
          then []
          else remove_container m.dozzle_container_id ∷ [])
        ++ (compose_down ∷ []))
