-- ===== src/Runner/Worker.antt =====
-- pkg/runner/grpc.go: the calls of `InvokeFunctionInstance` on one instance, its workers, and its
-- shutdown, as the steps that may interleave: `opened` is atomic, and the queue is a channel. A step
-- of `AddToQueue` is its test of `opened` with `ResetTimer`, or its send. A worker's own timer is only
-- received from in its loop, so that its `Reset` finds it pending, and does not end the loop.
use servermore.Base.{Bool, List, [], false, if◌then◌else◌, suc, true, ℕ, ◌++◌, ◌∷◌, ◌≡◌}
use servermore.Base.Results.{Result, err, ok}
use servermore.Runner.Instances.{
  InstanceState, QueueFailure, adding_to_closed_queue, open_instance, reset_timer, send_to_queue,
}

-- How far `shutdownAfterTime` has come.
pub data Shutdown : Type 0 where
  waiting fired unopened worker_cancelled finished : Shutdown

-- One instance and the goroutines around it. `starters` were told that no worker runs; of those that
-- passed the assertions `timed_starters` have still to send, and `queued_starters` to start a worker.
-- `joiners` and `timed_joiners` were told that one runs. `workers` loop. `accepted` and `served` keep
-- the requests queued and taken so far.
pub record Execution (Q : Type 0) : Type 0 where
  pub instance_of : InstanceState Q
  pub shutdown : Shutdown
  pub starters : ℕ
  pub timed_starters : ℕ
  pub queued_starters : ℕ
  pub joiners : ℕ
  pub timed_joiners : ℕ
  pub workers : ℕ
  pub accepted : List Q
  pub served : List Q

module _ {Q : Type 0} where
  abbrev pub begin : InstanceState Q → Execution Q
  begin instance = record {
    instance_of = instance;
    shutdown = waiting;
    starters = 0;
    timed_starters = 0;
    queued_starters = 0;
    joiners = 0;
    timed_joiners = 0;
    workers = 0;
    accepted = [];
    served = [];
  }

  -- A caller that has the instance asks `InstanceState`.
  abbrev pub asked : Bool × InstanceState Q → Execution Q → Execution Q
  asked (true, instance) x = record x { instance_of = instance; joiners = suc x.joiners }
  asked (false, instance) x = record x { instance_of = instance; starters = suc x.starters }

  -- The invocation's test and its timer.
  abbrev pub admitted : ℕ → InstanceState Q → Result QueueFailure (InstanceState Q)
  admitted now instance =
      if instance.opened then reset_timer now instance else err adding_to_closed_queue

pub data Step {Q : Type 0} (x : Execution Q) : Execution Q → Type 0 where
  ask : Step x (asked (open_instance x.instance_of) x)
  admit_starter :
      (now : ℕ) (instance : InstanceState Q) (n : ℕ)
      → x.starters ≡ suc n
      → admitted now x.instance_of ≡ ok instance
      → Step x
          (record x { instance_of = instance; starters = n; timed_starters = suc x.timed_starters })
  send_starter :
      (req : Q) (instance : InstanceState Q) (n : ℕ)
      → x.timed_starters ≡ suc n
      → send_to_queue req x.instance_of ≡ ok instance
      → Step x (record x {
        instance_of = instance;
        timed_starters = n;
        queued_starters = suc x.queued_starters;
        accepted = x.accepted ++ (req ∷ []);
      })
  -- `go r.instanceWorker(instance)`
  start_worker :
      (n : ℕ)
      → x.queued_starters ≡ suc n
      → Step x (record x { queued_starters = n; workers = suc x.workers })
  admit_joiner :
      (now : ℕ) (instance : InstanceState Q) (n : ℕ)
      → x.joiners ≡ suc n
      → admitted now x.instance_of ≡ ok instance
      → Step x
          (record x { instance_of = instance; joiners = n; timed_joiners = suc x.timed_joiners })
  send_joiner :
      (req : Q) (instance : InstanceState Q) (n : ℕ)
      → x.timed_joiners ≡ suc n
      → send_to_queue req x.instance_of ≡ ok instance
      → Step x (record x {
        instance_of = instance;
        timed_joiners = n;
        accepted = x.accepted ++ (req ∷ []);
      })
  -- `case req, ok := <-instance.queue`, with the invocation.
  serve :
      (n : ℕ) (req : Q) (rest : List Q)
      → x.workers ≡ suc n
      → x.instance_of.queue ≡ req ∷ rest
      → Step x (record x {
        instance_of = record x.instance_of { queue = rest };
        served = x.served ++ (req ∷ []);
      })
  -- `case <-timer.C`: also while requests are queued, since `select` takes any case that is ready.
  idle :
      (n : ℕ)
      → x.workers ≡ suc n
      → Step x (record x { instance_of = record x.instance_of { opened = false }; workers = n })
  -- `case <-instance.workerCtx.Done()`
  leave :
      (n : ℕ)
      → x.workers ≡ suc n
      → x.instance_of.cancelled ≡ true
      → Step x (record x { workers = n })
  -- `!ok`: the queue is closed and empty.
  drain :
      (n : ℕ)
      → x.workers ≡ suc n
      → x.instance_of.queue ≡ []
      → x.instance_of.queue_closed ≡ true
      → Step x (record x { instance_of = record x.instance_of { opened = false }; workers = n })
  -- `<-instance.lastUsedTimer.C`, and then the statements of `StopInstance`.
  fire :
      x.shutdown ≡ waiting
      → Step x (record x {
        instance_of = record x.instance_of { timer_active = false };
        shutdown = fired;
      })
  unopen :
      x.shutdown ≡ fired
      → Step x
          (record x { instance_of = record x.instance_of { opened = false }; shutdown = unopened })
  cancel_worker :
      x.shutdown ≡ unopened
      → Step x (record x {
        instance_of = record x.instance_of { cancelled = true };
        shutdown = worker_cancelled;
      })
  close_queue :
      x.shutdown ≡ worker_cancelled
      → Step x (record x {
        instance_of = record x.instance_of { queue_closed = true };
        shutdown = finished;
      })

pub data Reachable {Q : Type 0} (start : InstanceState Q) : Execution Q → Type 0 where
  here : Reachable start (begin start)
  after : (x y : Execution Q) → Reachable start x → Step x y → Reachable start y
