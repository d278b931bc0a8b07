-- ===== src/Commander/Db/Retry.antt =====
-- `WithRetry` ends after at most twenty calls.
use native.Mathlib.Decide.{dec_lt}
use servermore.Base.{
  Bool, Bool-cases, Option, arith, false, inl, inr, leb, refl, some, suc, true, zero, ℕ, ◌+◌, ◌<◌,
  ◌≡◌, ◌≤◌, ◌⊎◌,
}
use servermore.Base.Results.{Result, Result-cases, err, ok}
use servermore.Commander.Db.{
  DbError, context_done, errored_more_than, is_retryable, max_retries, retry_from, with_retry,
}

module _ {ℓ} {R : Type ℓ} (f : ℕ → Result DbError R) (is_done : ℕ → Bool) where
  -- What the loop may return once the calls before the `k`-th have failed: the call that decides,
  -- with only retryable errors before it.
  abbrev pub IsRetried : ℕ → ℕ → Type ℓ
  IsRetried from k =
      (j : ℕ) → from ≤ j → j < k → (e : DbError) × (f j ≡ err e) × (is_retryable e ≡ true)

  abbrev pub Decides : ℕ → Result DbError R → Type ℓ
  Decides k (ok result) = f k ≡ ok result
  Decides k (err e) =
      ((f k ≡ err e) × (is_retryable e ≡ false))
      ⊎ ((e' : DbError) × (f k ≡ err e')
          × (is_retryable e' ≡ true)
          × (((k ≡ max_retries) × (e ≡ errored_more_than max_retries e'))
              ⊎ ((k < max_retries) × (is_done k ≡ true) × (e ≡ context_done))))

  -- The answer of a loop that stands before the call `from`.
  abbrev pub Answers : ℕ → Option (Result DbError R) → Type ℓ
  Answers from answer =
      (k : ℕ) × (r : Result DbError R) × (answer ≡ some r)
      × (from ≤ k)
      × (k ≤ max_retries)
      × IsRetried from k
      × Decides k r

  nothing_before : (k : ℕ) → IsRetried k k
  nothing_before k j low high = absurd (omega arith)

  IsRetried-before :
      (from k : ℕ) (e : DbError)
      → f from ≡ err e
      → is_retryable e ≡ true
      → IsRetried (suc from) k
      → IsRetried from k
  IsRetried-before from k e failed retryable rest j low high = elim (dec_lt from j) [
    | yes later ↦ rest j (omega arith) high
    | no now ↦ let same : from ≡ j = omega arith in (e, rw (← same) failed, retryable)
  ]

  retry_from-Answers :
      (fuel retries : ℕ)
      → retries + fuel ≡ suc max_retries
      → 0 < fuel
      → Answers retries (retry_from f is_done fuel retries)
  unfolding retry_from
  retry_from-Answers zero retries total some_left = elim some_left [ ]
  retry_from-Answers (suc fuel) retries total some_left = elim (Result-cases (f retries)) [
    | inl (result, e) ↦ (
      retries,
      ok result,
      rw (e, retry_from),
      omega arith,
      omega arith,
      nothing_before retries,
      e,
    )
    | inr (failure, e) ↦ elim (Bool-cases (is_retryable failure)) [
      | inr final ↦ (
        retries,
        err failure,
        rw (e, final, retry_from),
        omega arith,
        omega arith,
        nothing_before retries,
        inl (e, final),
      )
      | inl again ↦ elim (Bool-cases (leb max_retries retries)) [
        | inl over ↦ (
          retries,
          err (errored_more_than max_retries failure),
          rw (e, again, over, retry_from),
          omega arith,
          omega arith,
          nothing_before retries,
          inr (failure, e, again, inl (ground arith, refl)),
        )
        | inr under ↦ elim (Bool-cases (is_done retries)) [
          | inl done ↦ (
            retries,
            err context_done,
            rw (e, again, under, done, retry_from),
            omega arith,
            omega arith,
            nothing_before retries,
            inr (failure, e, again, inr (ground arith, done, refl)),
          )
          | inr wait ↦
              let (k, r, answer, low, high, before, decides) =
                retry_from-Answers fuel (suc retries) (omega arith) (ground arith) in
              (
                k,
                r,
                rw (e, again, under, wait, retry_from) answer,
                omega arith,
                high,
                IsRetried-before retries k failure e again before,
                decides,
              )
        ]
      ]
    ]
  ]

  -- `WithRetry` always returns, after at most 20 calls. Every call before the last failed with busy
  -- or locked. The last succeeded and its result is returned; or it failed with another error, which
  -- is returned; or it failed with busy or locked and either was the 20th call, or the context ended
  -- the wait behind it.
  pub with_retry-Answers : Answers 1 (with_retry f is_done)
  unfolding with_retry
  with_retry-Answers = retry_from-Answers max_retries 1 (omega arith) (omega arith)
