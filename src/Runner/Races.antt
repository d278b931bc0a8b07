-- ===== src/Runner/Races.antt =====
-- Interleavings of a worker's idle timeout with calls on its instance.
use servermore.Base.{String, [], arith, refl, true, ℕ, ◌+◌, ◌∷◌, ◌≡◌}
use servermore.Base.Results.{err}
use servermore.Runner.Instances.{adding_to_closed_queue, new_instance, open_instance, reset_timer}
use servermore.Runner.SingleWorker.{committed}
use servermore.Runner.Worker.{
  Execution, Reachable, admit_starter, admitted, after, ask, begin, here, idle, send_starter,
  start_worker, waiting,
}

module _ {Q : Type 0} where
  -- A caller of a new instance that has sent its request and started the worker, after `joins` others
  -- were told that a worker runs.
  working :
      (func_path : String) (now shutdown_after : ℕ) (req : Q)
      → Reachable
          (new_instance func_path now shutdown_after)
          (record (begin {Q = Q} (new_instance func_path now shutdown_after)) {
            instance_of = record (new_instance func_path now shutdown_after) {
              opened = true;
              queue = req ∷ [];
            };
            joiners = 1;
            workers = 1;
            accepted = req ∷ [];
          })
  unfolding open_instance reset_timer
  working func_path now shutdown_after req =
      after _ _
        (after _ _
          (after _ _ (after _ _ (after _ _ here ask) ask) (admit_starter now _ 0 refl refl))
          (send_starter req _ 0 refl refl))
        (start_worker 0 refl)

  -- A caller that was told that a worker runs can find the instance closed, long before its shutdown,
  -- so that its assertion fails: the worker's idle timeout comes between the two. The request that
  -- was queued then waits with no worker and no caller to start one.
  pub idle_between :
      (func_path : String) (now shutdown_after later : ℕ) (req : Q)
      → (x : Execution Q) × Reachable (new_instance func_path now shutdown_after) x
        × (x.shutdown ≡ waiting)
        × (x.joiners ≡ 1)
        × (admitted later x.instance_of ≡ err adding_to_closed_queue)
        × (x.instance_of.queue ≡ req ∷ [])
        × (x.starters + committed x ≡ 0)
  idle_between func_path now shutdown_after later req = (
    _,
    after _ _ (working func_path now shutdown_after req) (idle 0 refl),
    refl,
    refl,
    refl,
    refl,
    omega arith,
  )
