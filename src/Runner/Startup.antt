-- ===== src/Runner/Startup.antt =====
-- `startWithRetry` ends after at most ten attempts.
use native.Mathlib.Decide.{dec_lt}
use servermore.Base.{
  Bool-cases, Option, arith, false, inl, inr, leb, refl, some, suc, true, zero, ℕ, ◌+◌, ◌-◌, ◌<◌,
  ◌≡◌, ◌≤◌, ◌⊎◌,
}
use servermore.Base.Results.{Result, Result-cases, err, ok}
use servermore.Runner.Runtime.{
  StartError, failed_multiple_times, is_text_busy, max_start_retries, not_text_busy, start_from,
  start_with_retry,
}

module _ {Cmd : Type 0} (attempt : ℕ → Result StartError Cmd) where
  -- The attempts from here up to the `k`-th found the file busy.
  abbrev pub AllBusy : ℕ → ℕ → Type 0
  AllBusy from k =
      (j : ℕ) → from ≤ j → j < k → (e : StartError) × (attempt j ≡ err e) × (is_text_busy e ≡ true)

  abbrev pub IsDecided : ℕ → Result StartError Cmd → Type 0
  IsDecided k (ok cmd) = attempt k ≡ ok cmd
  IsDecided k (err e) =
      (cause : StartError) × (attempt k ≡ err cause)
      × (((is_text_busy cause ≡ false) × (e ≡ not_text_busy cause))
          ⊎ ((is_text_busy cause ≡ true)
              × (k ≡ max_start_retries)
              × (e ≡ failed_multiple_times cause)))

  -- The answer of a loop that stands before the attempt `from`.
  abbrev pub IsStarted : ℕ → Option (Result StartError Cmd × ℕ) → Type 0
  IsStarted from answer =
      (k : ℕ) × (r : Result StartError Cmd) × (answer ≡ some (r, k - 1))
      × (from ≤ k)
      × (k ≤ max_start_retries)
      × AllBusy from k
      × IsDecided k r

  AllBusy-here : (k : ℕ) → AllBusy k k
  AllBusy-here k j low high = absurd (omega arith)

  AllBusy-before :
      (from k : ℕ) (e : StartError)
      → attempt from ≡ err e
      → is_text_busy e ≡ true
      → AllBusy (suc from) k
      → AllBusy from k
  AllBusy-before from k e failing busy_now rest j low high = elim (dec_lt from j) [
    | yes later ↦ rest j (omega arith) high
    | no now ↦ let same : from ≡ j = omega arith in (e, rw (← same) failing, busy_now)
  ]

  start_from-IsStarted :
      (fuel attempts : ℕ)
      → attempts + fuel ≡ suc max_start_retries
      → 0 < fuel
      → IsStarted attempts (start_from attempt fuel attempts)
  unfolding start_from
  start_from-IsStarted zero attempts total some_left = elim some_left [ ]
  start_from-IsStarted (suc fuel) attempts total some_left =
      elim (Result-cases (attempt attempts)) [
        | inl (cmd, e) ↦ (
          attempts,
          ok cmd,
          rw (e, start_from),
          omega arith,
          omega arith,
          AllBusy-here attempts,
          e,
        )
        | inr (cause, e) ↦ elim (Bool-cases (is_text_busy cause)) [
          | inr final ↦ (
            attempts,
            err (not_text_busy cause),
            rw (e, final, start_from),
            omega arith,
            omega arith,
            AllBusy-here attempts,
            (cause, e, inl (final, refl)),
          )
          | inl again ↦ elim (Bool-cases (leb max_start_retries attempts)) [
            | inl over ↦ (
              attempts,
              err (failed_multiple_times cause),
              rw (e, again, over, start_from),
              omega arith,
              omega arith,
              AllBusy-here attempts,
              (cause, e, inr (again, ground arith, refl)),
            )
            | inr under ↦
                let (k, r, answer, low, high, before, decided) =
                  start_from-IsStarted fuel (suc attempts) (omega arith) (ground arith) in
                (
                  k,
                  r,
                  rw (e, again, under, start_from) answer,
                  omega arith,
                  high,
                  AllBusy-before attempts k cause e again before,
                  decided,
                )
          ]
        ]
      ]

  -- `startWithRetry` always returns, after at most 10 attempts, with the number of those before the
  -- last. Every attempt before the last found the file busy. The last started the process, or failed
  -- with another error, or was the 10th to find the file busy.
  pub start_with_retry-IsStarted : IsStarted 1 (start_with_retry attempt)
  unfolding start_with_retry
  start_with_retry-IsStarted = start_from-IsStarted max_start_retries 1 (omega arith) (omega arith)
