-- ===== src/Runner/Tests.antt =====
-- Runs of the runner's parts, and its theorems at concrete inputs.
use servermore.Base.{
  String, [], false, if◌then◌else◌, ltb, none, refl, some, true, ℕ, ◌++◌, ◌+◌, ◌∷◌, ◌≡◌,
}
use servermore.Base.Maps.{insert, lookup}
use servermore.Base.Results.{Result, err, ok}
use servermore.Runner.Delivery.{additions, delivered, handed, run-submit}
use servermore.Runner.Instances.{
  adding_to_closed_queue, depths_of, is_starting_or_start_it, new_instance, open_instance,
  queue_depths, reset_timer,
}
use servermore.Runner.MultiConsumer.{
  add_sub, add_sub_op, deliver, deliver_all, new_multi_consumer, run, submit_op, submit_result,
}
use servermore.Runner.Prepare.{Preparation, Prepared, prepare_function_instance}
use servermore.Runner.Races.{idle_between}
use servermore.Runner.Runtime.{StartError, start_from, start_with_retry, text_busy}
use servermore.Runner.SingleStart.{
  IsSingle, StartReachable, StartReachable-IsSingle, Starting, ask_start, at_first, then_step,
}
use servermore.Runner.SingleWorker.{IsServed, committed}
use servermore.Runner.Startup.{IsStarted, start_with_retry-IsStarted}
use servermore.Runner.Steps.{reachable-IsServed}
use servermore.Runner.Worker.{
  Execution, Reachable, admit_starter, admitted, after, ask, begin, here, send_starter, serve,
  start_worker, waiting,
}

three_subscribers :
    run {T = String}
      (add_sub_op ∷ submit_op "ready" ∷ add_sub_op ∷ submit_op "again" ∷ add_sub_op ∷ [])
      new_multi_consumer
    ≡ ok (record {
      subscribers = [];
      result = some "again";
      channels = delivered "ready" ∷ delivered "ready" ∷ delivered "again" ∷ [];
    })
unfolding run deliver_all deliver add_sub submit_result
three_subscribers = refl

run-submit_example :
    run {T = String} (additions 2 ++ (submit_op "ready" ∷ additions 1)) new_multi_consumer
    ≡ ok (handed "ready" (1 + 2))
run-submit_example = run-submit "ready" 2 1

abbrev served_one : Execution String
served_one = record (begin {Q = String} (new_instance "/f" 10 60)) {
  instance_of = record (new_instance "/f" 10 60) { opened = true; last_used_timer_end = 80 };
  workers = 1;
  accepted = "req" ∷ [];
  served = "req" ∷ [];
}

one_call : Reachable (new_instance "/f" 10 60) served_one
unfolding open_instance reset_timer
one_call =
    after _ _
      (after _ _
        (after _ _ (after _ _ (after _ _ here ask) (admit_starter 20 _ 0 refl refl))
          (send_starter "req" _ 0 refl refl))
        (start_worker 0 refl))
      (serve 0 "req" [] refl refl)

reachable-IsServed_example : IsServed served_one
reachable-IsServed_example = reachable-IsServed "/f" 10 60 served_one one_call

idle_between_example :
    (x : Execution String) × Reachable (new_instance "/f" 10 60) x
    × (x.shutdown ≡ waiting)
    × (x.joiners ≡ 1)
    × (admitted 16 x.instance_of ≡ err adding_to_closed_queue)
    × (x.instance_of.queue ≡ "req" ∷ [])
    × (x.starters + committed x ≡ 0)
idle_between_example = idle_between "/f" 10 60 16 "req"

-- An instance that is about to shut down is left out of the depths.
depths :
    queue_depths {C = ℕ} 100 30 (record {
      starting_instances = [];
      instance_states =
          ("i1", record (new_instance {Q = String} "/f" 0 120) { queue = "a" ∷ "b" ∷ [] })
          ∷ ("i2", new_instance "/g" 0 140)
          ∷ [];
    })
    ≡ ("i2", 0) ∷ []
unfolding depths_of insert
depths = refl

abbrev busy_twice : ℕ → Result StartError String
busy_twice k = if ltb k 3 then err text_busy else ok "process"

third_attempt : start_with_retry busy_twice ≡ some (ok "process", 2)
unfolding start_with_retry start_from
third_attempt = refl

start_with_retry-IsStarted_example : IsStarted busy_twice 1 (start_with_retry busy_twice)
start_with_retry-IsStarted_example = start_with_retry-IsStarted busy_twice

-- One goroutine starts "/f", and a second one waits for it.
abbrev two_asked : Starting String ℕ
two_asked = record {
  states = record { starting_instances = ("/f", 1) ∷ []; instance_states = [] };
  starting = ("/f", 1) ∷ [];
}

both_asked : StartReachable two_asked
unfolding is_starting_or_start_it lookup insert
both_asked = then_step _ _ (then_step _ _ at_first (ask_start "/f" 1)) (ask_start "/f" 2)

StartReachable-IsSingle_example : IsSingle two_asked
StartReachable-IsSingle_example = StartReachable-IsSingle two_asked both_asked

abbrev fresh_file : Preparation
fresh_file = record {
  file_exists = ok false;
  under_way = false;
  other_download = none;
  own_download = ok "/store/f";
  start = λ path. ok "i5";
}

abbrev fresh_answer : Prepared
fresh_answer = record { instance_id = "i5"; downloaded = true }

prepared_fresh :
    prepare_function_instance fresh_file "/store/f" ≡ (ok fresh_answer, some (ok "/store/f"))
unfolding prepare_function_instance
prepared_fresh = refl
