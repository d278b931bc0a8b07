-- ===== src/Tester/Balance.antt =====
-- servermore-tester/worker.go: the numbers that the worker shows.
use servermore.Base.{
  Bool, Bool-cases, List, String, [], ap, arith, false, if◌then◌else◌, inl, inr, not, refl, suc,
  true, zero, ℕ, ◌+◌, ◌==◌, ◌||◌, ◌∷◌, ◌≡◌, ◌≤◌, ◌⊎◌,
}
use servermore.Base.Results.{err, ok}
use servermore.Tester.Deployment.{
  InvocationSpec, Invoked, adjust_setting, new_deployment_state, record_batch_completion,
  record_request, record_request_started, stop, toggle_enabled,
}
use servermore.Tester.Worker.{
  LoopPlace, WorkerEvent, WorkerState, adjust_event, answer_event, apply_event, apply_events, batch,
  batch_over, delaying, idling, is_batch_full, loop_ended, loop_event, loop_from, loop_step,
  loop_top, pausing, reading_delay, reading_settings, record_answer, send_request, sends_nothing,
  sent_one, start_loop, stop_event, toggle_event,
}

-- Whether the batch that the loop is in has sent a request that no completion counts yet.
abbrev pub uncounted : LoopPlace → ℕ
uncounted (batch (suc n)) = 1
uncounted (sent_one (suc n)) = 1
uncounted (pausing (suc n)) = 1
uncounted (batch_over (suc n)) = 1
uncounted _ = 0

abbrev pub IsBalanced : WorkerState → Type 0
IsBalanced w =
    (w.deployment.stats.requests_sent
      ≡ w.deployment.stats.responses_received + w.deployment.stats.transport_errors + w.in_flight)
    × (w.deployment.stats.batches_completed + uncounted w.place ≤ w.deployment.stats.requests_sent)

moved-IsBalanced :
    (w : WorkerState) (from to : LoopPlace)
    → w.place ≡ from
    → uncounted to ≤ uncounted from
    → IsBalanced w
    → IsBalanced (record w { place = to })
moved-IsBalanced w from to at fewer (total, batches) =
    let same : uncounted w.place ≡ uncounted from = ap uncounted at in (total, omega arith)

either :
    (b : Bool) (x y : LoopPlace) (n : ℕ)
    → uncounted x ≤ n
    → uncounted y ≤ n
    → uncounted (if b then x else y) ≤ n
either true x y n low high = low
either false x y n low high = high

at_most_one : (place : LoopPlace) → uncounted place ≤ 1
at_most_one (batch zero) = omega arith
at_most_one (batch (suc n)) = omega arith
at_most_one (sent_one zero) = omega arith
at_most_one (sent_one (suc n)) = omega arith
at_most_one (pausing zero) = omega arith
at_most_one (pausing (suc n)) = omega arith
at_most_one (batch_over zero) = omega arith
at_most_one (batch_over (suc n)) = omega arith
at_most_one _ = omega arith

sent_with :
    (n : ℕ)
    → (uncounted (batch n) ≡ uncounted (sent_one n))
      × (uncounted (pausing n) ≡ uncounted (sent_one n))
      × (uncounted (batch_over n) ≡ uncounted (batch n))
sent_with zero = (refl, refl, refl)
sent_with (suc n) = (refl, refl, refl)

send_request-IsBalanced :
    (now n : ℕ) (w : WorkerState)
    → w.place ≡ batch n
    → IsBalanced w
    → IsBalanced (send_request now n w)
unfolding record_request_started
send_request-IsBalanced now n w at (total, batches) = (omega arith, omega arith)

loop_from-IsBalanced :
    (rested : Bool) (now : ℕ) (w : WorkerState) (place : LoopPlace)
    → w.place ≡ place
    → IsBalanced w
    → IsBalanced (loop_from rested now w place)
unfolding record_request_started record_batch_completion
loop_from-IsBalanced rested now w loop_top at balanced =
    moved-IsBalanced w loop_top _ at
      (either w.deployment.enabled reading_settings idling 0 (omega arith) (omega arith)) balanced
loop_from-IsBalanced rested now w idling at balanced =
    moved-IsBalanced w idling _ at (either rested loop_top loop_ended 0 (omega arith) (omega arith))
      balanced
loop_from-IsBalanced rested now w reading_settings at balanced =
    moved-IsBalanced w reading_settings _ at
      (either (sends_nothing w.deployment.settings) idling (batch 0) 0 (omega arith) (omega arith))
      balanced
loop_from-IsBalanced rested now w (batch n) at balanced =
    elim (Bool-cases (is_batch_full w.deployment.settings n)) [
      | inl full ↦ rw full (
          moved-IsBalanced w (batch n) (batch_over n) at
            (let (_, _, same) = sent_with n in omega arith) balanced)
      | inr room ↦ rw room (send_request-IsBalanced now n w at balanced)
    ]
loop_from-IsBalanced rested now w (sent_one n) at balanced =
    let (same, again, _) = sent_with n in
    moved-IsBalanced w (sent_one n) _ at
      (either (is_batch_full w.deployment.settings n) (batch n) (pausing n) (uncounted (sent_one n))
        (omega arith) (omega arith))
      balanced
loop_from-IsBalanced rested now w (pausing n) at balanced =
    let (same, again, _) = sent_with n in
    moved-IsBalanced w (pausing n) _ at
      (either rested (batch n) loop_ended (uncounted (pausing n)) (omega arith) (omega arith))
      balanced
loop_from-IsBalanced rested now w (batch_over zero) at balanced =
    moved-IsBalanced w (batch_over zero) reading_delay at (omega arith) balanced
loop_from-IsBalanced rested now w (batch_over (suc n)) at (total, batches) =
    let same : uncounted w.place ≡ 1 = ap uncounted at in (total, omega arith)
loop_from-IsBalanced rested now w reading_delay at balanced =
    moved-IsBalanced w reading_delay _ at
      (either (w.deployment.settings.delay_between_batches == 0) loop_top delaying 0 (omega arith)
        (omega arith))
      balanced
loop_from-IsBalanced rested now w delaying at balanced =
    moved-IsBalanced w delaying _ at
      (either rested loop_top loop_ended 0 (omega arith) (omega arith)) balanced
loop_from-IsBalanced rested now w loop_ended at balanced = balanced

zero_or_suc : (n : ℕ) → (n ≡ 0) ⊎ ((k : ℕ) × (n ≡ suc k))
zero_or_suc zero = inl refl
zero_or_suc (suc k) = inr (k, refl)

record_answer-IsBalanced :
    (spec : InvocationSpec) (outcome : Invoked) (took now : ℕ) (w : WorkerState)
    → IsBalanced w
    → IsBalanced (record_answer spec outcome took now w)
unfolding record_answer record_request
record_answer-IsBalanced spec (ok (status, body)) took now w (total, batches) =
    elim (zero_or_suc w.in_flight) [
      | inl nothing ↦ rw (nothing, IsBalanced) (omega arith, omega arith)
      | inr (others, more) ↦ rw (more, IsBalanced) (omega arith, omega arith)
    ]
record_answer-IsBalanced spec (err e) took now w (total, batches) = elim (zero_or_suc w.in_flight) [
  | inl nothing ↦ rw (nothing, IsBalanced) (omega arith, omega arith)
  | inr (others, more) ↦ rw (more, IsBalanced) (omega arith, omega arith)
]

apply_event-IsBalanced :
    (event : WorkerEvent) (w : WorkerState) → IsBalanced w → IsBalanced (apply_event event w)
unfolding apply_event loop_step adjust_setting toggle_enabled stop
apply_event-IsBalanced (loop_event rested now) w balanced =
    loop_from-IsBalanced (rested || not w.deployment.cancelled) now w w.place refl balanced
apply_event-IsBalanced (answer_event spec outcome took now) w balanced =
    record_answer-IsBalanced spec outcome took now w balanced
apply_event-IsBalanced (adjust_event field_index delta) w balanced = balanced
apply_event-IsBalanced toggle_event w balanced = balanced
apply_event-IsBalanced stop_event w balanced = balanced

apply_events-keeps :
    (events : List WorkerEvent) (w : WorkerState)
    → IsBalanced w
    → IsBalanced (apply_events events w)
unfolding apply_events
apply_events-keeps [] w balanced = balanced
apply_events-keeps (event ∷ events) w balanced =
    apply_events-keeps events (apply_event event w) (apply_event-IsBalanced event w balanced)

-- From a new deployment on, in whatever order the loop, the answers and the user's changes come, the
-- requests sent are the responses, the transport errors and the requests in flight together, and there
-- are at most as many completed batches as requests sent: each has sent a request.
pub apply_events-IsBalanced :
    (name : List ℕ) (function_id : String) (events : List WorkerEvent)
    → IsBalanced (apply_events events (start_loop (new_deployment_state name function_id)))
unfolding start_loop new_deployment_state
apply_events-IsBalanced name function_id events =
    apply_events-keeps events (start_loop (new_deployment_state name function_id))
      (omega arith, omega arith)
