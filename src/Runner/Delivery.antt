-- ===== src/Runner/Delivery.antt =====
-- Each subscriber of a `MultiConsumer` gets one result.
use servermore.Base.{
  List, [], ap, append_behind, arith, length, length-behind, none, refl, some, suc, true, zero, ℕ,
  ◌++◌, ◌+◌, ◌∙◌, ◌∷◌, ◌≡◌,
}
use servermore.Base.Results.{ok}
use servermore.Runner.MultiConsumer.{
  Channel, MultiConsumer, Operation, add_sub, add_sub_op, deliver, deliver_all, new_channel,
  new_multi_consumer, run, submit_op, submit_result,
}

unfoldable ids_from : ℕ → ℕ → List ℕ
ids_from from zero = []
ids_from from (suc n) = from ∷ ids_from (suc from) n

ids_from-last : (from n : ℕ) → ids_from from n ++ ((from + n) ∷ []) ≡ ids_from from (suc n)
unfolding ids_from
ids_from-last from zero = ap (λ k. k ∷ []) (omega arith)
ids_from-last from (suc n) =
    ap (λ ids. from ∷ ids)
      (ap (λ k. ids_from (suc from) n ++ (k ∷ [])) (omega arith) ∙ ids_from-last (suc from) n)

ids_to-last : (n : ℕ) → ids_from 0 n ++ (n ∷ []) ≡ ids_from 0 (suc n)
ids_to-last n = ap (λ k. ids_from 0 n ++ (k ∷ [])) (omega arith) ∙ ids_from-last 0 n

module _ {T : Type 0} where
  unfoldable pub copies : ℕ → Channel T → List (Channel T)
  copies zero ch = []
  copies (suc n) ch = ch ∷ copies n ch

  -- A channel that holds this result and no more can come.
  abbrev pub delivered : T → Channel T
  delivered value = record { buffer = some value; closed = true }

  unfoldable pub additions : ℕ → List (Operation T)
  additions zero = []
  additions (suc n) = add_sub_op ∷ additions n

  deliver_behind :
      (value : T) (before after : List (Channel T))
      → deliver value (length before) (before ++ (new_channel ∷ after))
        ≡ ok (before ++ (delivered value ∷ after))
  unfolding deliver
  deliver_behind value [] after = refl
  deliver_behind value (ch ∷ before) after = rw (deliver_behind value before after)

  deliver_all-fresh :
      (value : T) (n : ℕ) (before : List (Channel T))
      → deliver_all value (ids_from (length before) n) (before ++ copies n new_channel)
        ≡ ok (before ++ copies n (delivered value))
  unfolding deliver_all ids_from copies
  deliver_all-fresh value zero before = refl
  deliver_all-fresh value (suc n) before =
      rw
        (
          deliver_behind value before (copies n new_channel),
          ← length-behind before (delivered value),
          ← append_behind before (delivered value) (copies n new_channel),
          ← append_behind before (delivered value) (copies n (delivered value)),
        )
        (deliver_all-fresh value n (before ++ (delivered value ∷ [])))

  length-copies : (n : ℕ) (ch : Channel T) → length (copies n ch) ≡ n
  unfolding copies
  length-copies zero ch = refl
  length-copies (suc n) ch = rw (length-copies n ch)

  copies-last : (n : ℕ) (ch : Channel T) → copies n ch ++ (ch ∷ []) ≡ copies (suc n) ch
  unfolding copies
  copies-last zero ch = refl
  copies-last (suc n) ch = ap (λ chans. ch ∷ chans) (copies-last n ch)

  -- A consumer with `n` subscribers that still wait.
  abbrev waiting : ℕ → MultiConsumer T
  waiting n = record { subscribers = ids_from 0 n; result = none; channels = copies n new_channel }

  -- A consumer that has handed its result to `n` subscribers.
  abbrev pub handed : T → ℕ → MultiConsumer T
  handed value n = record {
    subscribers = [];
    result = some value;
    channels = copies n (delivered value);
  }

  run-additions-waiting :
      (n k : ℕ) (ops : List (Operation T))
      → run (additions n ++ ops) (waiting k) ≡ run ops (waiting (n + k))
  unfolding run additions add_sub
  run-additions-waiting zero k ops = ap (λ j. run ops (waiting j)) (omega arith)
  run-additions-waiting (suc n) k ops =
      rw (length-copies k new_channel, copies-last k new_channel, ids_to-last k)
        (run-additions-waiting n (suc k) ops ∙ ap (λ j. run ops (waiting j)) (omega arith))

  submit_result-waiting :
      (value : T) (n : ℕ) → submit_result value (waiting n) ≡ ok (handed value n)
  unfolding submit_result
  submit_result-waiting value n = rw (deliver_all-fresh value n [])

  run-additions-handed :
      (value : T) (n k : ℕ) → run (additions n) (handed value k) ≡ ok (handed value (n + k))
  unfolding run additions add_sub
  run-additions-handed value zero k = ap (λ j. ok (handed value j)) (omega arith)
  run-additions-handed value (suc n) k =
      rw (copies-last k (delivered value))
        (run-additions-handed value n (suc k) ∙ ap (λ j. ok (handed value j)) (omega arith))

  run_submitted :
      (value : T) (n m : ℕ)
      → run (submit_op value ∷ additions m) (waiting n) ≡ ok (handed value (m + n))
  unfolding run
  run_submitted value n m = rw (submit_result-waiting value n) (run-additions-handed value m n)

  -- With `n` subscribers before the result is submitted and `m` after, no send blocks and none goes to
  -- a closed channel; in the end no subscriber waits, and each of the `m + n` channels holds the
  -- result and is closed.
  pub run-submit :
      (value : T) (n m : ℕ)
      → run (additions n ++ (submit_op value ∷ additions m)) new_multi_consumer
        ≡ ok (handed value (m + n))
  unfolding ids_from copies
  run-submit value n m =
      run-additions-waiting n 0 (submit_op value ∷ additions m)
      ∙ run_submitted value (n + 0) m
      ∙ (let same : m + (n + 0) ≡ m + n = omega arith in ap (λ j. ok (handed value j)) same)
