-- ===== src/Runner/Readiness.antt =====
-- `waitForHeartbeat` ends once its timer has fired or its context has ended.
use native.Mathlib.Decide.{dec_lt}
use servermore.Base.{
  String, ap, arith, inl, inr, refl, some, suc, sym, zero, ℕ, ◌+◌, ◌-◌, ◌<◌, ◌∙◌, ◌≡◌, ◌≢◌, ◌≤◌,
  ◌⊎◌,
}
use servermore.Base.Results.{Result, Result-cases, err, ok}
use servermore.Runner.Runtime.{
  ReadyError, Wait, context_ended, context_error, no_heartbeat, ready_from, slept, timed_out,
}

module _ (beat : ℕ → Result String (Unit {0})) (wait : ℕ → Wait) where
  -- What the loop answers, decided by the attempt `k`.
  abbrev pub IsReady : ℕ → Result ReadyError (Unit {0}) → Type 0
  IsReady k (ok up) = beat k ≡ ok up
  IsReady k (err context_error) = ((e : String) × (beat k ≡ err e)) × (wait k ≡ context_ended)
  IsReady k (err no_heartbeat) = ((e : String) × (beat k ≡ err e)) × (wait k ≡ timed_out)

  Wait-cases : (w : Wait) → (w ≡ context_ended) ⊎ ((w ≡ timed_out) ⊎ (w ≡ slept))
  Wait-cases context_ended = inl refl
  Wait-cases timed_out = inr (inl refl)
  Wait-cases slept = inr (inr refl)

  -- If the wait behind some attempt is ended by the timer or the context, the loop returns by that
  -- attempt: with success where a heartbeat succeeded, and else with the error of what ended the wait.
  pub ready_from-IsReady :
      (fuel attempts stop : ℕ)
      → attempts ≤ stop
      → stop < attempts + fuel
      → wait stop ≢ slept
      → (k : ℕ) × (r : Result ReadyError (Unit {0})) × (ready_from beat wait fuel attempts
          ≡ some (k - 1, r))
        × (attempts ≤ k)
        × (k ≤ stop)
        × IsReady k r
  unfolding ready_from
  ready_from-IsReady zero attempts stop low high ends = absurd (omega arith)
  ready_from-IsReady (suc fuel) attempts stop low high ends = elim (Result-cases (beat attempts)) [
    | inl (up, e) ↦ (attempts, ok up, rw (e, ready_from), omega arith, low, e)
    | inr (cause, e) ↦ elim (Wait-cases (wait attempts)) [
      | inl cancelled ↦ (
        attempts,
        err context_error,
        rw (e, cancelled, ready_from),
        omega arith,
        low,
        ((cause, e), cancelled),
      )
      | inr (inl late) ↦ (
        attempts,
        err no_heartbeat,
        rw (e, late, ready_from),
        omega arith,
        low,
        ((cause, e), late),
      )
      | inr (inr again) ↦
          let before : attempts < stop = elim (dec_lt attempts stop) [
            | yes before ↦ before
            | no not_before ↦
                let same : attempts ≡ stop = omega arith in
                absurd (ends (ap wait (sym same) ∙ again))
          ] in
          let (k, r, answer, from, by, decided) =
            ready_from-IsReady fuel (suc attempts) stop (omega arith) (omega arith) ends in
          (k, r, rw (e, again, ready_from) answer, omega arith, by, decided)
    ]
  ]
