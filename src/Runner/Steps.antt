-- ===== src/Runner/Steps.antt =====
-- Every step of an instance's callers, workers and shutdown keeps `IsServed`.
use servermore.Base.{
  Bool, List, String, [], arith, false, inl, inr, refl, subst, suc, true, ℕ, ◌++◌, ◌+◌, ◌∷◌, ◌≡◌,
}
use servermore.Base.Results.{ok}
use servermore.Runner.Instances.{InstanceState, new_instance, send_to_queue}
use servermore.Runner.SingleWorker.{
  IsServed, ask-IsServed, attended_open, attended_working, let_in, moved-IsServed, queued_last,
  sent, served_first, shorter,
}
use servermore.Runner.Worker.{
  Execution, Reachable, Shutdown, Step, admit_joiner, admit_starter, admitted, after, ask,
  cancel_worker, close_queue, drain, finished, fire, fired, here, idle, leave, send_joiner,
  send_starter, serve, start_worker, unopen, unopened, waiting, worker_cancelled,
}

module _ {Q : Type 0} where
  admit_starter-IsServed :
      (x : Execution Q) (now : ℕ) (instance : InstanceState Q) (n : ℕ)
      → IsServed x
      → x.starters ≡ suc n
      → admitted now x.instance_of ≡ ok instance
      → IsServed
          (record x { instance_of = instance; starters = n; timed_starters = suc x.timed_starters })
  admit_starter-IsServed x now instance n h some_starter e =
      let (is_open, active, same) = let_in now x.instance_of instance e in
      let attended = attended_open x h is_open active in
      subst
        (λ i.
          IsServed
            (record x { instance_of = i; starters = n; timed_starters = suc x.timed_starters }))
        same
        (record {
          one_worker = omega arith;
          attended = λ _. inl (is_open, omega arith);
          short = h.short;
          in_order = h.in_order;
          ended = h.ended;
          uncancelled = h.uncancelled;
        })

  admit_joiner-IsServed :
      (x : Execution Q) (now : ℕ) (instance : InstanceState Q) (n m : ℕ)
      → IsServed x
      → admitted now x.instance_of ≡ ok instance
      → IsServed (record x { instance_of = instance; joiners = n; timed_joiners = m })
  admit_joiner-IsServed x now instance n m h e =
      let (is_open, active, same) = let_in now x.instance_of instance e in
      subst (λ i. IsServed (record x { instance_of = i; joiners = n; timed_joiners = m })) same
        (record {
          one_worker = h.one_worker;
          attended = h.attended;
          short = h.short;
          in_order = h.in_order;
          ended = h.ended;
          uncancelled = h.uncancelled;
        })

  -- A request that is queued; who sent it moves on.
  send-IsServed :
      (x : Execution Q) (req : Q) (instance : InstanceState Q) (t q j : ℕ)
      → IsServed x
      → t + q ≡ x.timed_starters + x.queued_starters
      → send_to_queue req x.instance_of ≡ ok instance
      → IsServed (record x {
        instance_of = instance;
        timed_starters = t;
        queued_starters = q;
        timed_joiners = j;
        accepted = x.accepted ++ (req ∷ []);
      })
  send-IsServed x req instance t q j h moved e =
      let (short, same) = sent req x.instance_of instance e in
      let one = h.one_worker in
      subst
        (λ i. IsServed (record x {
          instance_of = i;
          timed_starters = t;
          queued_starters = q;
          timed_joiners = j;
          accepted = x.accepted ++ (req ∷ []);
        }))
        same
        (record {
          one_worker = rw moved one;
          attended = λ active. rw moved (h.attended active);
          short = short;
          in_order = queued_last x req h;
          ended = h.ended;
          uncancelled = h.uncancelled;
        })

  -- A worker that stores false in `opened` and ends.
  close-IsServed :
      (x : Execution Q) (n : ℕ)
      → IsServed x
      → x.workers ≡ suc n
      → IsServed (record x { instance_of = record x.instance_of { opened = false }; workers = n })
  close-IsServed x n h some_worker =
      let one = h.one_worker in
      record {
        one_worker = omega arith;
        attended = λ active.
            let attended = attended_working x h (omega arith) active in inr (refl, omega arith);
        short = h.short;
        in_order = h.in_order;
        ended = h.ended;
        uncancelled = h.uncancelled;
      }

  serve-IsServed :
      (x : Execution Q) (req : Q) (rest : List Q)
      → IsServed x
      → x.instance_of.queue ≡ req ∷ rest
      → IsServed (record x {
        instance_of = record x.instance_of { queue = rest };
        served = x.served ++ (req ∷ []);
      })
  serve-IsServed x req rest h front = record {
    one_worker = h.one_worker;
    attended = h.attended;
    short = shorter x req rest h front;
    in_order = served_first x req rest h front;
    ended = h.ended;
    uncancelled = h.uncancelled;
  }

  fire-IsServed :
      (x : Execution Q)
      → IsServed x
      → IsServed (record x {
        instance_of = record x.instance_of { timer_active = false };
        shutdown = fired;
      })
  fire-IsServed x h = record {
    one_worker = h.one_worker;
    attended = λ active. cc;
    short = h.short;
    in_order = h.in_order;
    ended = inr refl;
    uncancelled = λ _. refl;
  }

  -- A statement of `StopInstance`, after the timer has fired.
  stopping-IsServed :
      (x : Execution Q) (b c q : Bool) (phase : Shutdown)
      → IsServed x
      → (x.shutdown ≡ waiting → ⊥)
      → IsServed (record x {
        instance_of = record x.instance_of { opened = b; cancelled = c; queue_closed = q };
        shutdown = phase;
      })
  stopping-IsServed x b c q phase h over =
      let inactive : x.instance_of.timer_active ≡ false = elim h.ended [
        | inl still ↦ absurd (over still)
        | inr inactive ↦ inactive
      ] in
      record {
        one_worker = h.one_worker;
        attended = λ active. cc;
        short = h.short;
        in_order = h.in_order;
        ended = inr inactive;
        uncancelled = λ _. inactive;
      }

  leave-IsServed :
      (x : Execution Q) (n : ℕ)
      → IsServed x
      → x.workers ≡ suc n
      → x.instance_of.cancelled ≡ true
      → IsServed (record x { workers = n })
  leave-IsServed x n h some_worker cancelled =
      let one = h.one_worker in
      let inactive = h.uncancelled cancelled in
      record {
        one_worker = omega arith;
        attended = λ active. cc;
        short = h.short;
        in_order = h.in_order;
        ended = h.ended;
        uncancelled = h.uncancelled;
      }

  start_worker-IsServed :
      (x : Execution Q) (n : ℕ)
      → IsServed x
      → x.queued_starters ≡ suc n
      → IsServed (record x { queued_starters = n; workers = suc x.workers })
  start_worker-IsServed x n h some_queued =
      let one = h.one_worker in
      moved-IsServed x (record x { queued_starters = n; workers = suc x.workers }) h refl refl refl
        refl (omega arith) (λ _. omega arith)

  Step-IsServed : (x y : Execution Q) → IsServed x → Step x y → IsServed y
  Step-IsServed x y h ask = ask-IsServed x h
  Step-IsServed x y h (admit_starter now instance n some_starter e) =
      admit_starter-IsServed x now instance n h some_starter e
  Step-IsServed x y h (send_starter req instance n some_timed e) =
      send-IsServed x req instance n (suc x.queued_starters) x.timed_joiners h (omega arith) e
  Step-IsServed x y h (start_worker n some_queued) = start_worker-IsServed x n h some_queued
  Step-IsServed x y h (admit_joiner now instance n some_joiner e) =
      admit_joiner-IsServed x now instance n (suc x.timed_joiners) h e
  Step-IsServed x y h (send_joiner req instance n some_timed e) =
      send-IsServed x req instance x.timed_starters x.queued_starters n h refl e
  Step-IsServed x y h (serve n req rest some_worker front) = serve-IsServed x req rest h front
  Step-IsServed x y h (idle n some_worker) = close-IsServed x n h some_worker
  Step-IsServed x y h (leave n some_worker cancelled) = leave-IsServed x n h some_worker cancelled
  Step-IsServed x y h (drain n some_worker empty closed) = close-IsServed x n h some_worker
  Step-IsServed x y h (fire phase) = fire-IsServed x h
  Step-IsServed x y h (unopen phase) =
      stopping-IsServed x false x.instance_of.cancelled x.instance_of.queue_closed unopened h
        (λ still. cc)
  Step-IsServed x y h (cancel_worker phase) =
      stopping-IsServed x x.instance_of.opened true x.instance_of.queue_closed worker_cancelled h
        (λ still. cc)
  Step-IsServed x y h (close_queue phase) =
      stopping-IsServed x x.instance_of.opened x.instance_of.cancelled true finished h (λ still. cc)

  -- However the callers, the workers and the shutdown of a new instance interleave: at most one
  -- goroutine is its worker or is past the timer and about to start one; until the shutdown timer
  -- fires, one such goroutine or a caller that is to start one is there exactly if the instance is
  -- open; the queue holds at most 100 requests; and the requests taken so far, with those that are
  -- queued, are the ones accepted, in their order.
  pub reachable-IsServed :
      (func_path : String) (now shutdown_after : ℕ) (x : Execution Q)
      → Reachable (new_instance func_path now shutdown_after) x
      → IsServed x
  reachable-IsServed func_path now shutdown_after x here = record {
    one_worker = omega arith;
    attended = λ active. inr (refl, omega arith);
    short = omega arith;
    in_order = refl;
    ended = inl refl;
    uncancelled = λ cancelled. cc;
  }
  reachable-IsServed func_path now shutdown_after y (after x same earlier step) =
      Step-IsServed x y (reachable-IsServed func_path now shutdown_after x earlier) step
