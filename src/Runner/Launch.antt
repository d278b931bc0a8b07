-- ===== src/Runner/Launch.antt =====
-- pkg/runner/runtime.go: `nativeRuntime.Start` and `Stop`. What the kernel answers for a port, the
-- attempts to start the process, the client and the heartbeats are parameters. The model keeps the
-- numbers of the processes that run, from their start to `closeCmd`, and of open connections.
use servermore.Base.{
  Option, String, ap, arith, none, refl, some, suc, ℕ, ◌+◌, ◌-◌, ◌<◌, ◌∙◌, ◌≡◌, ◌≢◌, ◌≤◌,
}
use servermore.Base.Results.{Result, err, ok}
use servermore.Runner.Readiness.{ready_from-IsReady}
use servermore.Runner.Runtime.{ReadyError, StartError, Wait, ready_from, slept, start_with_retry}
use servermore.Runner.Startup.{start_with_retry-IsStarted}

pub data LaunchError : Type 0 where
  no_free_port client_init_failed : (message : String) → LaunchError
  binary_start_failed : StartError → LaunchError
  no_ready_heartbeat : ReadyError → LaunchError

-- The processes and the connections of the runner.
pub record Held : Type 0 where
  pub processes : ℕ
  pub connections : ℕ

-- `exec.Cmd.Start` where it succeeds.
unfoldable pub start_cmd : Held → Held
start_cmd h = record h { processes = suc h.processes }

-- `GrpcClient` where it succeeds.
unfoldable pub dial_instance : Held → Held
dial_instance h = record h { connections = suc h.connections }

-- `server.Close` of the connection.
unfoldable pub close_conn : Held → Held
close_conn h = record h { connections = h.connections - 1 }

-- `closeCmd`, which waits until the process has ended.
unfoldable pub close_cmd : Held → Held
close_cmd h = record h { processes = h.processes - 1 }

abbrev pub Launch : Type 0
Launch = Result LaunchError ℕ × Held

abbrev pub after_heartbeats : ℕ → Held → Option (ℕ × Result ReadyError (Unit {0})) → Option Launch
after_heartbeats port h none = none
after_heartbeats port h (some (retries, ok up)) = some (ok port, h)
after_heartbeats port h (some (retries, err e)) =
    some (err (no_ready_heartbeat e), close_cmd (close_conn h))

-- What a start that came to this result has left.
abbrev pub IsClean : Held → Launch → Type 0
IsClean before (ok port, now) =
    (now.processes ≡ suc before.processes) × (now.connections ≡ suc before.connections)
IsClean before (err (client_init_failed e), now) =
    (now.processes ≡ suc before.processes) × (now.connections ≡ before.connections)
IsClean before (err _, now) = now ≡ before

one_less : (n : ℕ) → suc n - 1 ≡ n
one_less n = omega arith

after_heartbeats-IsClean :
    (port retries : ℕ) (before : Held) (r : Result ReadyError (Unit {0}))
    → (launch : Launch) × (after_heartbeats port
          (dial_instance (start_cmd before))
          (some (retries, r))
        ≡ some launch)
      × IsClean before launch
unfolding start_cmd dial_instance close_conn close_cmd
after_heartbeats-IsClean port retries before (ok up) = (_, refl, (refl, refl))
after_heartbeats-IsClean port retries before (err e) =
    (_, refl, rw (one_less before.processes, one_less before.connections) refl)

-- What comes behind the start of the process: the client, and then the heartbeats.
abbrev pub after_client_made :
    (ℕ → Result String (Unit {0}))
    → (ℕ → Wait)
    → ℕ
    → ℕ
    → Held
    → Result String (Unit {0})
    → Option Launch
after_client_made beat wait fuel port h (err e) = some (err (client_init_failed e), h)
after_client_made beat wait fuel port h (ok up) =
    after_heartbeats port (dial_instance h) (ready_from beat wait fuel 1)

-- `exec.Cmd` stands in `Cmd`. The fuel is for the heartbeats; none means that it ran out.
module _ {Cmd : Type 0} (beat : ℕ → Result String (Unit {0})) (wait : ℕ → Wait) (fuel : ℕ) where
  abbrev pub after_process :
      ℕ → Result String (Unit {0}) → Held → Option (Result StartError Cmd × ℕ) → Option Launch
  after_process port client h none = none
  after_process port client h (some (err e, retries)) = some (err (binary_start_failed e), h)
  after_process port client h (some (ok cmd, retries)) =
      after_client_made beat wait fuel port (start_cmd h) client

  unfoldable pub native_start :
      Result String ℕ
      → (ℕ → Result StartError Cmd)
      → Result String (Unit {0})
      → Held
      → Option Launch
  unfolding ready_from start_with_retry start_cmd dial_instance close_conn close_cmd
  native_start (err e) attempt client h = some (err (no_free_port e), h)
  native_start (ok port) attempt client h = after_process port client h (start_with_retry attempt)

  after_process-IsClean :
      (port : ℕ) (client : Result String (Unit {0})) (before : Held) (r : Result StartError Cmd)
      (retries last : ℕ)
      → 1 ≤ last
      → last < 1 + fuel
      → wait last ≢ slept
      → (launch : Launch) × (after_process port client before (some (r, retries)) ≡ some launch)
        × IsClean before launch
  unfolding start_cmd
  after_process-IsClean port client before (err e) retries last low high ends = (_, refl, refl)
  after_process-IsClean port (err e) before (ok cmd) retries last low high ends =
      (_, refl, (refl, refl))
  after_process-IsClean port (ok up) before (ok cmd) retries last low high ends =
      let (k, r, answer, _, _, _) = ready_from-IsReady beat wait fuel 1 last low high ends in
      let (launch, same, clean) = after_heartbeats-IsClean port (k - 1) before r in
      (launch, ap (after_heartbeats port (dial_instance (start_cmd before))) answer ∙ same, clean)

  -- If the timer or the context ends the wait behind some heartbeat, `Start` returns, with fuel up to
  -- that heartbeat. Where it succeeds, there is one process more and one connection more than before.
  -- Where it fails, there are as many as before, but for the failure to make a client, which leaves the
  -- process that it has started.
  pub native_start-IsClean :
      (free_port : Result String ℕ) (attempt : ℕ → Result StartError Cmd)
      (client : Result String (Unit {0})) (before : Held) (last : ℕ)
      → 1 ≤ last
      → last < 1 + fuel
      → wait last ≢ slept
      → (launch : Launch) × (native_start free_port attempt client before ≡ some launch)
        × IsClean before launch
  unfolding native_start
  native_start-IsClean (err e) attempt client before last low high ends = (_, refl, refl)
  native_start-IsClean (ok port) attempt client before last low high ends =
      let (k, r, answer, _, _, _, _) = start_with_retry-IsStarted attempt in
      let (launch, same, clean) =
        after_process-IsClean port client before r (k - 1) last low high ends in
      (launch, ap (after_process port client before) answer ∙ same, clean)
