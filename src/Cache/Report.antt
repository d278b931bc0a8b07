-- ===== src/Cache/Report.antt =====
-- One reported instance of a heartbeat, and the first loop of `UpsertRunnerHeartbeat`.
use servermore.Base.{
  Bool, Option, String, ap, arith, eq_iff, eq_refl, false, if◌then◌else◌, none, refl, some, str_eq,
  sym, true, ℕ, ◌∙◌, ◌≡◌, ◌≢◌,
}
use servermore.Base.Maps.{Map, get_or, lookup, lookup-insert}
use servermore.Base.Nested.{
  delete_in, insert_in, lookup-delete_in_ne, lookup-in-insert, lookup-insert_in_ne, lookup_in,
}
use servermore.Cache.{
  InMemoryCache, Set, has_moved, own_instance, recount, report_instance, store_reported,
}
use servermore.Cache.Invariant.{
  IsConsistent, IsCounted, lookup-recount, owned_by, queued_for, sum_of, sum_of-insert,
}
use servermore.Cache.Moves.{leave_members, members_at, queues_at}

store_queues :
    (m : Map (Map ℕ)) (i : String) (func_id : Option String) (queue : Option ℕ) (q : ℕ)
    (f' i' : String) (c : InMemoryCache)
    → lookup_in f' i' c.func_instances
      ≡ (if str_eq i i' then queued_for f' func_id queue else lookup_in f' i' c.func_instances)
    → lookup_in f' i' (store_reported func_id i q c).func_instances
      ≡ (if str_eq i i' then queued_for f' func_id (some q) else lookup_in f' i' c.func_instances)
unfolding store_reported
store_queues m i none queue q f' i' c old = ground (arith, eq_iff i i')
store_queues m i (some f) queue q f' i' c old =
    ground (arith, eq_iff i i', eq_iff f f', lookup-in-insert f i q c.func_instances f' i')

-- Only the function's map is written by the last step.
stored_fields :
    (func_id : Option String) (i : String) (q : ℕ) (c : InMemoryCache)
    → (let d = store_reported func_id i q c in
        (d.instance_function ≡ c.instance_function)
        × (d.instance_runner ≡ c.instance_runner)
        × (d.instance_queue ≡ c.instance_queue)
        × (d.runner_instances ≡ c.runner_instances)
        × (d.runner_requests ≡ c.runner_requests)
        × (d.runner_stats ≡ c.runner_stats))
unfolding store_reported
stored_fields none i q c = (refl, refl, refl, refl, refl, refl)
stored_fields (some f) i q c = (refl, refl, refl, refl, refl, refl)

module _ (r i : String) (q : ℕ) (c : InMemoryCache) (valid : IsConsistent c) where
  pub lookup-runner :
      (j : String)
      → lookup j (report_instance r i q c).instance_runner
        ≡ (if str_eq i j then some r else lookup j c.instance_runner)
  unfolding report_instance
  lookup-runner j =
      ap (lookup j) (stored_fields (lookup i c.instance_function) i q (own_instance r i q c)).1
      ∙ lookup-insert i j r c.instance_runner

  pub lookup-function :
      (j : String)
      → lookup j (report_instance r i q c).instance_function ≡ lookup j c.instance_function
  unfolding report_instance
  lookup-function j =
      ap (lookup j) (stored_fields (lookup i c.instance_function) i q (own_instance r i q c)).0

  pub lookup-queue :
      (j : String)
      → lookup j (report_instance r i q c).instance_queue
        ≡ (if str_eq i j then some q else lookup j c.instance_queue)
  unfolding report_instance
  lookup-queue j =
      ap (lookup j) (stored_fields (lookup i c.instance_function) i q (own_instance r i q c)).2
      ∙ lookup-insert i j q c.instance_queue

  lookup-members :
      (r' i' : String)
      → lookup_in r' i' (report_instance r i q c).runner_instances
        ≡ (if str_eq i i' then owned_by r' (some r) else lookup_in r' i' c.runner_instances)
  unfolding report_instance
  lookup-members r' i' =
      ap (lookup_in r' i')
        (stored_fields (lookup i c.instance_function) i q (own_instance r i q c)).3
      ∙ leave_members c.runner_instances i r (lookup i c.instance_runner) r' i'
          (members_at c valid i r' i') (valid.named_runner i)

  lookup-queues :
      (f' i' : String)
      → lookup_in f' i' (report_instance r i q c).func_instances ≡ (
          if str_eq i i'
          then queued_for f' (lookup i c.instance_function) (some q)
          else lookup_in f' i' c.func_instances)
  unfolding report_instance
  lookup-queues f' i' =
      store_queues c.func_instances i (lookup i c.instance_function) (lookup i c.instance_queue) q
        f' i' _ (queues_at c valid i f' i')

  pub report_instance-IsConsistent : r ≢ "" → IsConsistent (report_instance r i q c)
  report_instance-IsConsistent named = record {
    members = λ r' j. ground (arith, lookup-members r' j, lookup-runner j, valid.members r' j);
    queues = λ f' j. ground (
      arith,
      eq_iff i j,
      lookup-queues f' j,
      lookup-function j,
      lookup-queue j,
      valid.queues f' j,
    );
    measured = λ j. ground (arith, lookup-runner j, lookup-queue j, valid.measured j);
    placed = λ j e. ground (arith, lookup-runner j, lookup-function j, valid.placed j, e);
    named_runner = λ j. ground (arith, lookup-runner j, valid.named_runner j, named);
    named_function = λ j. ground (arith, lookup-function j, valid.named_function j);
  }

left_requests :
    (moved : Bool) (p r r' i : String) (m : Map Set) (queue requests : Map ℕ)
    → str_eq r r' ≡ false
    → lookup r' requests ≡ sum_of queue (lookup r' m)
    → (let gone = if moved then delete_in p i m else m in
        lookup r' (if moved then recount p (lookup p gone) queue requests else requests)
        ≡ sum_of queue (lookup r' (insert_in r i tt gone)))
left_requests false p r r' i m queue requests other counted =
    rw (lookup-insert_in_ne r i tt m r' other) counted
left_requests true p r r' i m queue requests other counted =
    let row = lookup p (delete_in p i m) in
    rw (lookup-insert_in_ne r i tt (delete_in p i m) r' other) (
      ground
        (arith, eq_iff p r', lookup-recount p r' row queue requests, lookup-delete_in_ne p i m r'))

module _ (r i : String) (q : ℕ) (c : InMemoryCache) (valid : IsConsistent c) where
  not_member :
      (r' : String)
      → str_eq r r' ≡ false
      → lookup_in r' i (report_instance r i q c).runner_instances ≡ none
  not_member r' other = lookup-members r i q c valid r' i ∙ rw (eq_refl i, other)

  -- The loop keeps every count right but that of the runner itself.
  pub report_instance-IsCounted :
      (r' : String) → str_eq r r' ≡ false → IsCounted c r' → IsCounted (report_instance r i q c) r'
  unfolding report_instance
  report_instance-IsCounted r' other counted =
      let (_, _, queue, members, requests, _) =
        stored_fields (lookup i c.instance_function) i q (own_instance r i q c) in
      let p = get_or "" (lookup i c.instance_runner) in
      let absent = rw members at (not_member r' other) in
      rw (requests, members, queue)
        (left_requests (has_moved p r) p r r' i c.runner_instances c.instance_queue
            c.runner_requests other counted
          ∙ sym (sum_of-insert i q c.instance_queue r' _ absent))
