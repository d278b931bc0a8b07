-- ===== src/Cache/Upsert.antt =====
-- `UpsertRunnerHeartbeat` as a whole.
use servermore.Base.{
  Bool, Bool-cases, Option, Option-cases, String, [], ap, arith, eq_iff, eq_refl, false,
  if◌then◌else◌, inl, inr, none, not, refl, some, str_cases, str_eq, sym, ℕ, ◌&&◌, ◌∙◌, ◌≡◌, ◌≢◌,
}
use servermore.Base.Maps.{Map, insert, is_some, lookup, lookup-insert_ne, lookup-nil}
use servermore.Base.Nested.{lookup-in-insert_row, lookup-no_row, lookup-row}
use servermore.Cache.{
  InMemoryCache, ResourceMetrics, Set, drop_unreported, previous_instances,
  recompute_runner_requests_locked, report_instances, reported, upsert_runner_heartbeat,
}
use servermore.Cache.Drop.{
  KeepsAll, drop_unreported-IsConsistent, drop_unreported-IsCounted, drop_unreported-KeepsAll,
  is_dropped,
}
use servermore.Cache.Heartbeat.{
  HasUniqueKeys, function-report_instances, lookup-reported, or_else, queue-report_instances,
  report_instances-IsConsistent, report_instances-IsCounted, runner-report_instances,
}
use servermore.Cache.Invariant.{IsConsistent, IsCounted, IsValid, lookup-recount, owned_by}
use servermore.Cache.Placement.{after_heartbeat, placed_by, placement}

placed_by-heartbeat :
    (r : String) (depth : Option ℕ) (f o : Option String) (q : Option ℕ) {f' o' : Option String}
    {q' : Option ℕ}
    → (let dropped = not (is_some depth) && is_some (owned_by r o) in
        f' ≡ (if dropped then none else f))
    → o' ≡ (if is_some depth then some r else if is_some (owned_by r o) then none else o)
    → (let dropped = not (is_some depth) && is_some (owned_by r o) in
        q' ≡ (if dropped then none else or_else depth q))
    → (o ≡ none → f ≡ none)
    → placed_by f' o' q' ≡ after_heartbeat r depth (placed_by f o q)
placed_by-heartbeat r none f none q ef eo eq known = rw (ef, eo)
placed_by-heartbeat r none f (some o) q ef eo eq known = ground (arith, eq_iff o r)
placed_by-heartbeat r (some d) f none q ef eo eq known = ground (arith, known refl)
placed_by-heartbeat r (some d) f (some o) q ef eo eq known = ground arith

module _ (r : String) (named : r ≢ "") (depths : Map ℕ) (metrics : ResourceMetrics)
    (c : InMemoryCache) (valid : IsConsistent c) where
  after : InMemoryCache
  after = report_instances r depths c

  new_instances : Set
  new_instances = reported depths []

  remaining : InMemoryCache
  remaining = drop_unreported new_instances (previous_instances r c after) after

  after-IsConsistent : IsConsistent after
  unfolding after
  after-IsConsistent = report_instances-IsConsistent r named depths c valid

  remaining-IsConsistent : IsConsistent remaining
  unfolding remaining
  remaining-IsConsistent =
      drop_unreported-IsConsistent new_instances (previous_instances r c after) after
        after-IsConsistent

  remaining-IsCounted :
      (r' : String) → str_eq r r' ≡ false → IsCounted c r' → IsCounted remaining r'
  unfolding remaining after
  remaining-IsCounted r' other counted =
      drop_unreported-IsCounted new_instances (previous_instances r c after) after r'
        after-IsConsistent (report_instances-IsCounted r named depths c r' valid other counted)

  lookup-new_instances :
      (j : String) → lookup j new_instances ≡ (if is_some (lookup j depths) then some tt else none)
  unfolding new_instances
  lookup-new_instances j = ground (arith, lookup-reported depths [] j, lookup-nil {V = Unit {0}} j)

  -- The second loop visits, of the instances not reported, exactly those that the runner had.
  lookup-previous :
      (j : String)
      → is_some (lookup j depths) ≡ false
      → lookup j (previous_instances r c after) ≡ owned_by r (lookup j c.instance_runner)
  unfolding after previous_instances
  lookup-previous j unreported = elim (Option-cases (lookup r c.runner_instances)) [
    | inl e ↦
        rw (e, previous_instances)
          (lookup-nil {V = Unit {0}} j
            ∙ sym (lookup-no_row r j c.runner_instances e)
            ∙ valid.members r j)
    | inr (row, e) ↦
        rw (e, previous_instances)
          (lookup-row r j (report_instances r depths c).runner_instances
            ∙ (report_instances-IsConsistent r named depths c valid).members r j
            ∙ ap (owned_by r) (runner-report_instances r named depths c j valid ∙ rw unreported))
  ]

  is_evicted : String → Bool
  is_evicted j =
      not (is_some (lookup j depths)) && is_some (owned_by r (lookup j c.instance_runner))

  is_dropped-is_evicted :
      (j : String) → is_dropped new_instances (previous_instances r c after) j ≡ is_evicted j
  unfolding is_evicted
  is_dropped-is_evicted j = elim (Bool-cases (is_some (lookup j depths))) [
    | inl e ↦ ground (arith, e, lookup-new_instances j)
    | inr e ↦ ground (arith, e, lookup-new_instances j, lookup-previous j e)
  ]

  remaining-KeepsAll : (j : String) → KeepsAll (is_evicted j) j after remaining
  unfolding remaining
  remaining-KeepsAll j = rw (← is_dropped-is_evicted j) (
      drop_unreported-KeepsAll new_instances (previous_instances r c after) after j
        after-IsConsistent)

  remaining-runner :
      (j : String)
      → lookup j remaining.instance_runner ≡ (
          if is_some (lookup j depths)
          then some r
          else if is_some (owned_by r (lookup j c.instance_runner))
          then none
          else lookup j c.instance_runner)
  unfolding is_evicted after
  remaining-runner j =
      ground (arith, (remaining-KeepsAll j).0, runner-report_instances r named depths c j valid)

  remaining-function :
      (j : String)
      → lookup j remaining.instance_function
        ≡ (if is_evicted j then none else lookup j c.instance_function)
  unfolding after
  remaining-function j =
      ground (arith, (remaining-KeepsAll j).1, function-report_instances r named depths c j valid)

  remaining-queue :
      (j : String)
      → HasUniqueKeys depths
      → lookup j remaining.instance_queue
        ≡ (if is_evicted j then none else or_else (lookup j depths) (lookup j c.instance_queue))
  unfolding after
  remaining-queue j unique =
      ground
        (arith, (remaining-KeepsAll j).2, queue-report_instances r named depths c j valid unique)

  remaining-owned :
      (j : String) → lookup j new_instances ≡ owned_by r (lookup j remaining.instance_runner)
  remaining-owned j = ground (arith, eq_iff r r, remaining-runner j, lookup-new_instances j)

  upserted : InMemoryCache
  upserted = upsert_runner_heartbeat r depths metrics c

  upserted-IsConsistent : IsConsistent upserted
  unfolding upserted upsert_runner_heartbeat recompute_runner_requests_locked remaining after
      new_instances
  upserted-IsConsistent = record {
    members = λ r' j. ground (
      arith,
      eq_iff r r',
      lookup-in-insert_row r new_instances remaining.runner_instances r' j,
      remaining-owned j,
      remaining-IsConsistent.members r' j,
    );
    queues = remaining-IsConsistent.queues;
    measured = remaining-IsConsistent.measured;
    placed = remaining-IsConsistent.placed;
    named_runner = remaining-IsConsistent.named_runner;
    named_function = remaining-IsConsistent.named_function;
  }

  upserted-IsCounted : (r' : String) → IsCounted c r' → IsCounted upserted r'
  unfolding upserted upsert_runner_heartbeat recompute_runner_requests_locked remaining after
      new_instances
  upserted-IsCounted r' counted =
      let rows = insert r new_instances remaining.runner_instances in
      let after =
        lookup-recount r r' (lookup r rows) remaining.instance_queue remaining.runner_requests in
      elim (str_cases r r') [
        | inl e ↦ rw (← e) (
            lookup-recount r r (lookup r rows) remaining.instance_queue remaining.runner_requests
            ∙ rw (eq_refl r))
        | inr e ↦
            rw e at after
            ∙ remaining-IsCounted r' e counted
            ∙ rw (lookup-insert_ne r r' new_instances remaining.runner_instances e)
      ]

  -- A heartbeat from a runner with a non-empty address keeps the cache's seven maps in agreement:
  -- from a valid cache it gives a valid cache.
  pub upsert_runner_heartbeat-IsValid :
      ((r' : String) → IsCounted c r') → IsValid (upsert_runner_heartbeat r depths metrics c)
  unfolding upserted
  upsert_runner_heartbeat-IsValid counted = record {
    consistent = upserted-IsConsistent;
    counted = λ r'. upserted-IsCounted r' (counted r');
  }

  -- A heartbeat with unique keys, on a consistent cache, replaces what is known of the runner: each
  -- reported instance runs there with the reported queue length and the function known for it before,
  -- the runner's other instances are gone, and every other instance is as it was.
  pub placement-upsert_runner_heartbeat :
      HasUniqueKeys depths
      → (j : String)
      → placement (upsert_runner_heartbeat r depths metrics c) j
        ≡ after_heartbeat r (lookup j depths) (placement c j)
  unfolding upsert_runner_heartbeat recompute_runner_requests_locked remaining after new_instances
      is_evicted
  placement-upsert_runner_heartbeat unique j =
      placed_by-heartbeat r (lookup j depths) (lookup j c.instance_function)
        (lookup j c.instance_runner) (lookup j c.instance_queue) (remaining-function j)
        (remaining-runner j) (remaining-queue j unique) (valid.placed j)
