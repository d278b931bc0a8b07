-- ===== src/Tester/Spin.antt =====
-- servermore-tester/worker.go: `runWorkerLoop` with one request in a batch and no delay, which the user
-- reaches by the keys.
use servermore.Base.{Bool, ap, arith, false, refl, suc, true, zero, ℕ, ◌+◌, ◌==◌, ◌∙◌, ◌≡◌}
use servermore.Tester.Deployment.{DeploymentState, record_batch_completion, record_request_started}
use servermore.Tester.Worker.{
  LoopPlace, WorkerState, batch, batch_over, loop_step, loop_top, reading_delay, reading_settings,
  sent_one,
}

abbrev pub spinning : ℕ → DeploymentState → DeploymentState
spinning rate d = record d {
  settings = record { batch_size = 1; requests_per_second = rate; delay_between_batches = 0 };
  enabled = true;
}

abbrev standing : LoopPlace → DeploymentState → ℕ → WorkerState
standing place d in_flight = record { deployment = d; place = place; in_flight = in_flight }

abbrev pub at_top : DeploymentState → ℕ → WorkerState
at_top d in_flight = standing loop_top d in_flight

-- The loop alone, for a number of steps, with what its sleeps answer and what the clock shows.
unfoldable pub loop_steps : ℕ → (ℕ → Bool) → (ℕ → ℕ) → WorkerState → WorkerState
unfolding loop_step
loop_steps zero rested clock w = w
loop_steps (suc n) rested clock w = loop_steps n rested clock (loop_step (rested n) (clock n) w)

-- The steps of so many rounds: seven for each.
unfoldable pub steps_of : ℕ → ℕ
steps_of zero = zero
steps_of (suc n) = suc (suc (suc (suc (suc (suc (suc (steps_of n)))))))

module _ (rate : ℕ) (some_rate : (rate == 0) ≡ false) (rested : Bool) (now : ℕ) where
  reads :
      (d : DeploymentState) (k : ℕ)
      → loop_step rested now (standing reading_settings (spinning rate d) k)
        ≡ standing (batch 0) (spinning rate d) k
  unfolding loop_step
  reads d k = rw some_rate refl

  sends :
      (d : DeploymentState) (k : ℕ)
      → loop_step rested now (standing (batch 0) (spinning rate d) k)
        ≡ standing (sent_one 1) (spinning rate (record_request_started now d)) (suc k)
  unfolding loop_step record_request_started
  sends d k = rw some_rate refl

  is_full :
      (d : DeploymentState) (k : ℕ)
      → loop_step rested now (standing (sent_one 1) (spinning rate d) k)
        ≡ standing (batch 1) (spinning rate d) k
  unfolding loop_step
  is_full d k = rw some_rate refl

  ends_batch :
      (d : DeploymentState) (k : ℕ)
      → loop_step rested now (standing (batch 1) (spinning rate d) k)
        ≡ standing (batch_over 1) (spinning rate d) k
  unfolding loop_step
  ends_batch d k = rw some_rate refl

module _ (rate : ℕ) (some_rate : (rate == 0) ≡ false) (rested : ℕ → Bool) (clock : ℕ → ℕ) where
  next :
      (n : ℕ) (w w1 : WorkerState) {x : WorkerState}
      → loop_step (rested n) (clock n) w ≡ w1
      → loop_steps n rested clock w1 ≡ x
      → loop_steps (suc n) rested clock w ≡ x
  unfolding loop_steps
  next n w w1 e later = ap (loop_steps n rested clock) e ∙ later

  abbrev counted : ℕ → DeploymentState → DeploymentState
  counted n d =
      record_batch_completion (clock (suc n))
        (record_request_started (clock (suc (suc (suc (suc n))))) d)

  one_round :
      (n k : ℕ) (d : DeploymentState)
      → loop_steps
          (suc (suc (suc (suc (suc (suc (suc n)))))))
          rested
          clock
          (at_top (spinning rate d) k)
        ≡ loop_steps n rested clock (at_top (spinning rate (counted n d)) (suc k))
  unfolding loop_step record_batch_completion record_request_started
  one_round n k d =
      let n2 = suc (suc n) in
      let n3 = suc n2 in
      let n4 = suc n3 in
      let n5 = suc n4 in
      let begun = record_request_started (clock n4) d in
      next (suc n5) _ (standing reading_settings (spinning rate d) k) refl (
        next n5 _ _ (reads rate some_rate (rested n5) (clock n5) d k) (
          next n4 _ _ (sends rate some_rate (rested n4) (clock n4) d k) (
            next n3 _ _ (is_full rate some_rate (rested n3) (clock n3) begun (suc k)) (
              next n2 _ _ (ends_batch rate some_rate (rested n2) (clock n2) begun (suc k)) (
                next (suc n) _ (standing reading_delay (spinning rate (counted n d)) (suc k)) refl
                  (next n _ _ refl refl))))))

-- With one request in a batch, a rate that is not zero and no delay, the loop never sleeps: whatever
-- its sleeps would answer, and whether its context has been cancelled or not, after any number of
-- rounds of seven steps it is at its top again and has sent as many requests. So it neither keeps to the
-- rate nor ends.
pub loop_steps-spinning :
    (n rate k : ℕ) (rested : ℕ → Bool) (clock : ℕ → ℕ) (d : DeploymentState)
    → (rate == 0) ≡ false
    → (d' : DeploymentState) × (loop_steps (steps_of n) rested clock (at_top (spinning rate d) k)
        ≡ at_top (spinning rate d') (n + k))
      × (d'.stats.requests_sent ≡ n + d.stats.requests_sent)
      × (d'.cancelled ≡ d.cancelled)
unfolding loop_steps loop_step record_request_started record_batch_completion steps_of
loop_steps-spinning zero rate k rested clock d some_rate =
    (d, ap (at_top (spinning rate d)) (omega arith), omega arith, refl)
loop_steps-spinning (suc n) rate k rested clock d some_rate =
    let later =
      record_batch_completion (clock (suc (steps_of n)))
        (record_request_started (clock (suc (suc (suc (suc (steps_of n)))))) d) in
    let (d', reached, counts, same) =
      loop_steps-spinning n rate (suc k) rested clock later some_rate in
    (
      d',
      one_round rate some_rate rested clock (steps_of n) k d
          ∙ reached
          ∙ ap (at_top (spinning rate d')) (omega arith),
      omega arith,
      same,
    )
