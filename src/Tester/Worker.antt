-- ===== src/Tester/Worker.antt =====
-- servermore-tester/worker.go: `runWorkerLoop`, between whose reads of the settings the goroutines that
-- wait for answers and the user may write. Each point of the loop at which it takes the mutex, or
-- sleeps, is a place; an event is one step of the loop, an answer, or a change by the user. Settings
-- stay below a thousand million requests a second, so that no pause is empty.
use servermore.Base.{Bool, List, [], if◌then◌else◌, leb, not, suc, zero, ℕ, ◌==◌, ◌||◌, ◌∷◌}
use servermore.Tester.Deployment.{
  Delta, DeploymentState, InvocationSpec, Invoked, RequestSettings, adjust_setting,
  record_batch_completion, record_request, record_request_started, stop, toggle_enabled,
}

-- `batch` and the places behind it hold `sentInBatch`.
pub data LoopPlace : Type 0 where
  loop_top idling reading_settings reading_delay delaying loop_ended : LoopPlace
  batch sent_one pausing batch_over : (sent_in_batch : ℕ) → LoopPlace

-- `in_flight` counts the goroutines that have not yet recorded their answer.
pub record WorkerState : Type 0 where
  pub deployment : DeploymentState
  pub place : LoopPlace
  pub in_flight : ℕ

unfoldable pub start_loop : DeploymentState → WorkerState
start_loop deployment = record { deployment = deployment; place = loop_top; in_flight = 0 }

-- `settings.BatchSize <= 0 || settings.RequestsPerSecond <= 0`
abbrev pub sends_nothing : RequestSettings → Bool
sends_nothing s = (s.batch_size == 0) || (s.requests_per_second == 0)

abbrev pub is_batch_full : RequestSettings → ℕ → Bool
is_batch_full s sent_in_batch = sends_nothing s || leb s.batch_size sent_in_batch

-- `spec := requester.NextInvocation()`, the record of the request, and its goroutine.
abbrev pub send_request : ℕ → ℕ → WorkerState → WorkerState
send_request now sent_in_batch w = record w {
  deployment = record_request_started now w.deployment;
  in_flight = suc w.in_flight;
  place = sent_one (suc sent_in_batch);
}

-- One step of the loop; `rested` is what a `sleepWithContext` at this place answers.
abbrev pub loop_from : Bool → ℕ → WorkerState → LoopPlace → WorkerState
loop_from rested now w loop_top = record w {
  place = if w.deployment.enabled then reading_settings else idling;
}
loop_from rested now w idling = record w { place = if rested then loop_top else loop_ended }
loop_from rested now w reading_settings = record w {
  place = if sends_nothing w.deployment.settings then idling else batch 0;
}
loop_from rested now w (batch sent_in_batch) =
    if is_batch_full w.deployment.settings sent_in_batch
    then record w { place = batch_over sent_in_batch }
    else send_request now sent_in_batch w
loop_from rested now w (sent_one sent_in_batch) = record w {
  place =
      if is_batch_full w.deployment.settings sent_in_batch
      then batch sent_in_batch
      else pausing sent_in_batch;
}
loop_from rested now w (pausing sent_in_batch) = record w {
  place = if rested then batch sent_in_batch else loop_ended;
}
loop_from rested now w (batch_over zero) = record w { place = reading_delay }
loop_from rested now w (batch_over (suc sent_in_batch)) = record w {
  deployment = record_batch_completion now w.deployment;
  place = reading_delay;
}
loop_from rested now w reading_delay = record w {
  place = if w.deployment.settings.delay_between_batches == 0 then loop_top else delaying;
}
loop_from rested now w delaying = record w { place = if rested then loop_top else loop_ended }
loop_from rested now w loop_ended = w

-- Without an end of the context a sleep is not cut short.
unfoldable pub loop_step : Bool → ℕ → WorkerState → WorkerState
unfolding record_request_started record_batch_completion
loop_step rested now w = loop_from (rested || not w.deployment.cancelled) now w w.place

-- The goroutine of a request records its answer; there is none where no request is in flight.
unfoldable pub record_answer : InvocationSpec → Invoked → ℕ → ℕ → WorkerState → WorkerState
unfolding record_request
record_answer spec outcome took now w = elim (w.in_flight) [
  | zero ↦ w
  | suc others ↦ record w {
    deployment = record_request spec outcome took now w.deployment;
    in_flight = others;
  }
]

pub data WorkerEvent : Type 0 where
  loop_event : (rested : Bool) (now : ℕ) → WorkerEvent
  answer_event : InvocationSpec → Invoked → (took now : ℕ) → WorkerEvent
  adjust_event : (field_index : ℕ) → Delta → WorkerEvent
  toggle_event stop_event : WorkerEvent

unfoldable pub apply_event : WorkerEvent → WorkerState → WorkerState
unfolding loop_step record_answer adjust_setting toggle_enabled stop
apply_event (loop_event rested now) w = loop_step rested now w
apply_event (answer_event spec outcome took now) w = record_answer spec outcome took now w
apply_event (adjust_event field_index delta) w = record w {
  deployment = adjust_setting field_index delta w.deployment;
}
apply_event toggle_event w = record w { deployment = toggle_enabled w.deployment }
apply_event stop_event w = record w { deployment = stop w.deployment }

unfoldable pub apply_events : List WorkerEvent → WorkerState → WorkerState
unfolding apply_event
apply_events [] w = w
apply_events (event ∷ events) w = apply_events events (apply_event event w)
