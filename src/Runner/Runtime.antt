-- ===== src/Runner/Runtime.antt =====
-- pkg/runner/runtime.go: the loop that starts the process of an instance. `exec.Cmd.Start` is a
-- parameter: `attempt k` is what the k-th start answers.
use servermore.Base.{
  Bool, Option, String, false, if◌then◌else◌, leb, none, not, some, suc, true, zero, ℕ, ◌-◌,
}
use servermore.Base.Results.{Result, err, ok}

-- `text_busy` is syscall.ETXTBSY.
pub data StartError : Type 0 where
  text_busy : StartError
  other_start_error : (message : String) → StartError
  not_text_busy failed_multiple_times : StartError → StartError

abbrev pub max_start_retries : ℕ
max_start_retries = 10

abbrev pub is_text_busy : StartError → Bool
is_text_busy text_busy = true
is_text_busy _ = false

-- `startWithRetry` with fuel, before the attempt numbered `attempts`; none means that the fuel ran
-- out. The answer comes with the number of retries, `attempts - 1`.
unfoldable pub start_from :
    {Cmd : Type 0} → (ℕ → Result StartError Cmd) → ℕ → ℕ → Option (Result StartError Cmd × ℕ)
start_from attempt zero attempts = none
start_from attempt (suc fuel) attempts =
    let later = start_from attempt fuel (suc attempts) in
    elim (attempt attempts) [
      | ok cmd ↦ some (ok cmd, attempts - 1)
      | err e ↦
          if not (is_text_busy e)
          then some (err (not_text_busy e), attempts - 1)
          else if leb max_start_retries attempts
          then some (err (failed_multiple_times e), attempts - 1)
          else later
    ]

unfoldable pub start_with_retry :
    {Cmd : Type 0} → (ℕ → Result StartError Cmd) → Option (Result StartError Cmd × ℕ)
start_with_retry attempt = start_from attempt max_start_retries 1

-- What ends the wait behind a heartbeat that failed.
pub data Wait : Type 0 where
  context_ended timed_out slept : Wait

pub data ReadyError : Type 0 where
  context_error no_heartbeat : ReadyError

-- `waitForHeartbeat` with fuel, before the attempt numbered `attempts`: `beat k` is what the k-th
-- heartbeat answers, and `wait k` is what ends the wait behind it. None means that the fuel ran out.
unfoldable pub ready_from :
    (ℕ → Result String (Unit {0})) → (ℕ → Wait) → ℕ → ℕ → Option (ℕ × Result ReadyError (Unit {0}))
ready_from beat wait zero attempts = none
ready_from beat wait (suc fuel) attempts =
    let later = ready_from beat wait fuel (suc attempts) in
    elim (beat attempts) [
      | ok up ↦ some (attempts - 1, ok up)
      | err e ↦ elim (wait attempts) [
        | context_ended ↦ some (attempts - 1, err context_error)
        | timed_out ↦ some (attempts - 1, err no_heartbeat)
        | slept ↦ later
      ]
    ]
