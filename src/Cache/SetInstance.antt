-- ===== src/Cache/SetInstance.antt =====
-- `SetInstance`: what each map holds afterwards, and the invariant.
use servermore.Base.{
  Bool-cases, String, ap, arith, eq_iff, false, if◌then◌else◌, inl, inr, none, some, str_eq, str_ne,
  sym, ℕ, ◌∙◌, ◌≡◌, ◌≢◌,
}
use servermore.Base.Maps.{insert, lookup, lookup-insert}
use servermore.Base.Nested.{delete_in, insert_in, lookup_in}
use servermore.Cache.{InMemoryCache, has_moved, set_instance}
use servermore.Cache.Invariant.{
  IsConsistent, IsCounted, IsValid, owned_by, queued_for, sum_of, sum_of-insert,
}
use servermore.Cache.Moves.{
  leave_members, leave_queues, members_at, moved_requests, moved_row, previous, queues_at,
  recounted, unowned,
}
use servermore.Cache.Placement.{placement}

module _ (c : InMemoryCache) (f i r : String) (q : ℕ) (valid : IsConsistent c) where
  lookup-runner :
      (j : String)
      → lookup j (set_instance f i r q c).instance_runner
        ≡ (if str_eq i j then some r else lookup j c.instance_runner)
  unfolding set_instance
  lookup-runner j = lookup-insert i j r c.instance_runner

  lookup-function :
      (j : String)
      → lookup j (set_instance f i r q c).instance_function
        ≡ (if str_eq i j then some f else lookup j c.instance_function)
  unfolding set_instance
  lookup-function j = lookup-insert i j f c.instance_function

  lookup-queue :
      (j : String)
      → lookup j (set_instance f i r q c).instance_queue
        ≡ (if str_eq i j then some q else lookup j c.instance_queue)
  unfolding set_instance
  lookup-queue j = lookup-insert i j q c.instance_queue

  lookup-members :
      (r' i' : String)
      → lookup_in r' i' (set_instance f i r q c).runner_instances
        ≡ (if str_eq i i' then owned_by r' (some r) else lookup_in r' i' c.runner_instances)
  unfolding set_instance
  lookup-members r' i' =
      leave_members c.runner_instances i r (lookup i c.instance_runner) r' i'
        (members_at c valid i r' i') (valid.named_runner i)

  lookup-queues :
      (f' i' : String)
      → lookup_in f' i' (set_instance f i r q c).func_instances ≡ (
          if str_eq i i' then queued_for f' (some f) (some q) else lookup_in f' i' c.func_instances)
  unfolding set_instance
  lookup-queues f' i' =
      leave_queues c.func_instances i f (lookup i c.instance_function) (lookup i c.instance_queue) q
        f' i' (queues_at c valid i f' i') (valid.named_function i)

  pub set_instance-IsConsistent : f ≢ "" → r ≢ "" → IsConsistent (set_instance f i r q c)
  set_instance-IsConsistent named_f named_r = record {
    members = λ r' j. ground (arith, lookup-members r' j, lookup-runner j, valid.members r' j);
    queues = λ f' j.
        ground (arith, lookup-queues f' j, lookup-function j, lookup-queue j, valid.queues f' j);
    measured = λ j. ground (arith, lookup-runner j, lookup-queue j, valid.measured j);
    placed = λ j e. ground (arith, lookup-runner j, lookup-function j, valid.placed j, e);
    named_runner = λ j. ground (arith, lookup-runner j, valid.named_runner j, named_r);
    named_function = λ j. ground (arith, lookup-function j, valid.named_function j, named_f);
  }

  -- Every runner that was counted right is still; the instance's new runner is counted anew.
  pub set_instance-IsCounted :
      (r' : String) → (str_eq r r' ≡ false → IsCounted c r') → IsCounted (set_instance f i r q c) r'
  unfolding set_instance
  set_instance-IsCounted r' counted =
      let p = previous c valid i r in
      let joined =
        insert_in r i tt
          (if has_moved p r then delete_in p i c.runner_instances else c.runner_instances) in
      let after =
        moved_requests (has_moved p r) p r r' joined (insert i q c.instance_queue)
          c.runner_requests in
      elim (Bool-cases (recounted c valid i r r')) [
        | inl e ↦ rw e at after
        | inr e ↦
            (rw e at after)
            ∙ counted (ground arith)
            ∙ sym (
                sum_of-insert i q c.instance_queue r' c.runner_instances (unowned c valid i r r' e))
            ∙ ap (sum_of (insert i q c.instance_queue))
                (sym (moved_row (has_moved p r) p r r' i c.runner_instances e))
      ]

  -- Registering an instance with a non-empty function id and runner address keeps a valid cache
  -- valid.
  pub set_instance-IsValid :
      f ≢ "" → r ≢ "" → ((r' : String) → IsCounted c r') → IsValid (set_instance f i r q c)
  set_instance-IsValid named_f named_r counted = record {
    consistent = set_instance-IsConsistent named_f named_r;
    counted = λ r'. set_instance-IsCounted r' (λ e. counted r');
  }

  -- On a consistent cache, registering an instance places it and moves no other instance.
  pub placement-set_instance :
      (j : String)
      → placement (set_instance f i r q c) j ≡ (
          if str_eq i j
          then some (record { function = some f; runner = r; queue_len = q })
          else placement c j)
  placement-set_instance j =
      ground (arith, eq_iff i j, lookup-runner j, lookup-function j, lookup-queue j)

  -- No count appears under the empty address.
  pub set_instance-unnamed :
      r ≢ ""
      → lookup "" c.runner_requests ≡ none
      → lookup "" (set_instance f i r q c).runner_requests ≡ none
  unfolding set_instance has_moved
  set_instance-unnamed named none_before =
      let p = previous c valid i r in
      let joined =
        insert_in r i tt
          (if has_moved p r then delete_in p i c.runner_instances else c.runner_instances) in
      moved_requests (has_moved p r) p r "" joined (insert i q c.instance_queue) c.runner_requests
      ∙ ground (arith, str_ne r "" named, none_before)
