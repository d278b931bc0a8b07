-- ===== src/Cache/Remove.antt =====
-- `removeInstanceLocked`: what each map holds afterwards, and the invariant.
use servermore.Base.{
  Option, String, ap, arith, eq_iff, eq_refl, if◌then◌else◌, none, refl, some, str_eq, sym, ℕ, ◌∙◌,
  ◌≡◌,
}
use servermore.Base.Maps.{delete, lookup, lookup-delete}
use servermore.Base.Nested.{
  delete_in, lookup-delete_in_ne, lookup-in-delete, lookup-in-drop, lookup_in,
}
use servermore.Cache.{
  InMemoryCache, leave_known_function, leave_known_runner, recompute_runner_requests_locked,
  remove_function_instance_locked, remove_instance_locked, remove_runner_instance_locked,
}
use servermore.Cache.Invariant.{
  IsConsistent, IsCounted, lookup-recount, owned_by, queued_for, sum_of, sum_of-delete,
}
use servermore.Cache.Moves.{members_at, queues_at}

left_fields :
    (func_id : Option String) (i : String) (c : InMemoryCache)
    → (let d = leave_known_function func_id i c in
        (d.instance_function ≡ c.instance_function)
        × (d.instance_runner ≡ c.instance_runner)
        × (d.instance_queue ≡ c.instance_queue)
        × (d.runner_instances ≡ c.runner_instances)
        × (d.runner_requests ≡ c.runner_requests)
        × (d.runner_stats ≡ c.runner_stats))
unfolding leave_known_function remove_function_instance_locked
left_fields none i c = (refl, refl, refl, refl, refl, refl)
left_fields (some f) i c = (refl, refl, refl, refl, refl, refl)

gone_fields :
    (runner_addr : Option String) (i : String) (c : InMemoryCache)
    → (let d = leave_known_runner runner_addr i c in
        (d.instance_function ≡ c.instance_function)
        × (d.instance_runner ≡ c.instance_runner)
        × (d.instance_queue ≡ c.instance_queue)
        × (d.func_instances ≡ c.func_instances)
        × (d.runner_stats ≡ c.runner_stats))
unfolding leave_known_runner remove_runner_instance_locked recompute_runner_requests_locked
gone_fields none i c = (refl, refl, refl, refl, refl)
gone_fields (some r) i c = (refl, refl, refl, refl, refl)

gone_members :
    (runner_addr : Option String) (i : String) (c : InMemoryCache) (r' i' : String)
    → lookup_in r' i' c.runner_instances
      ≡ (if str_eq i i' then owned_by r' runner_addr else lookup_in r' i' c.runner_instances)
    → lookup_in r' i' (leave_known_runner runner_addr i c).runner_instances
      ≡ (if str_eq i i' then none else lookup_in r' i' c.runner_instances)
unfolding leave_known_runner remove_runner_instance_locked recompute_runner_requests_locked
gone_members none i c r' i' old = old
gone_members (some p) i c r' i' old =
    ground (arith, eq_iff i i', eq_iff p r', lookup-in-delete p i c.runner_instances r' i')

left_queues :
    (func_id : Option String) (i : String) (queue : Option ℕ) (c : InMemoryCache) (f' i' : String)
    → lookup_in f' i' c.func_instances
      ≡ (if str_eq i i' then queued_for f' func_id queue else lookup_in f' i' c.func_instances)
    → lookup_in f' i' (leave_known_function func_id i c).func_instances
      ≡ (if str_eq i i' then none else lookup_in f' i' c.func_instances)
unfolding leave_known_function remove_function_instance_locked
left_queues none i queue c f' i' old = old
left_queues (some f) i queue c f' i' old =
    ground (arith, eq_iff i i', eq_iff f f', lookup-in-drop f i c.func_instances f' i')

-- Once the instance has left its runner, every runner that was counted right is still.
gone_counted :
    (runner_addr : Option String) (i : String) (c : InMemoryCache) (r' : String)
    → lookup_in r' i c.runner_instances ≡ owned_by r' runner_addr
    → IsCounted c r'
    → lookup r' (leave_known_runner runner_addr i c).runner_requests
      ≡ sum_of c.instance_queue (lookup r' (leave_known_runner runner_addr i c).runner_instances)
unfolding leave_known_runner remove_runner_instance_locked recompute_runner_requests_locked
gone_counted none i c r' old counted = counted
gone_counted (some p) i c r' old counted =
    let row = lookup p (delete_in p i c.runner_instances) in
    ground (
      arith,
      eq_iff p r',
      lookup-recount p r' row c.instance_queue c.runner_requests,
      lookup-delete_in_ne p i c.runner_instances r',
    )

module _ (i : String) (c : InMemoryCache) (valid : IsConsistent c) where
  left : InMemoryCache
  left = leave_known_function (lookup i c.instance_function) i c

  pub lookup-runner :
      (j : String)
      → lookup j (remove_instance_locked i c).instance_runner
        ≡ (if str_eq i j then none else lookup j c.instance_runner)
  unfolding remove_instance_locked
  lookup-runner j =
      ap (λ m. lookup j (delete i m))
        ((gone_fields (lookup i c.instance_runner) i _).1
          ∙ (left_fields (lookup i c.instance_function) i c).1)
      ∙ lookup-delete i j c.instance_runner

  pub lookup-function :
      (j : String)
      → lookup j (remove_instance_locked i c).instance_function
        ≡ (if str_eq i j then none else lookup j c.instance_function)
  unfolding remove_instance_locked
  lookup-function j =
      ap (λ m. lookup j (delete i m))
        ((gone_fields (lookup i c.instance_runner) i _).0
          ∙ (left_fields (lookup i c.instance_function) i c).0)
      ∙ lookup-delete i j c.instance_function

  same_queue : (remove_instance_locked i c).instance_queue ≡ delete i c.instance_queue
  unfolding remove_instance_locked
  same_queue = ap (delete i) (
      (gone_fields (lookup i c.instance_runner) i _).2
      ∙ (left_fields (lookup i c.instance_function) i c).2)

  pub lookup-queue :
      (j : String)
      → lookup j (remove_instance_locked i c).instance_queue
        ≡ (if str_eq i j then none else lookup j c.instance_queue)
  lookup-queue j = ap (lookup j) same_queue ∙ lookup-delete i j c.instance_queue

  same_members : (left).runner_instances ≡ c.runner_instances
  unfolding left
  same_members = (left_fields (lookup i c.instance_function) i c).3

  pub lookup-members :
      (r' i' : String)
      → lookup_in r' i' (remove_instance_locked i c).runner_instances
        ≡ (if str_eq i i' then none else lookup_in r' i' c.runner_instances)
  unfolding remove_instance_locked left
  lookup-members r' i' =
      gone_members (lookup i c.instance_runner) i left r' i'
        (rw same_members (members_at c valid i r' i'))
      ∙ rw same_members

  lookup-queues :
      (f' i' : String)
      → lookup_in f' i' (remove_instance_locked i c).func_instances
        ≡ (if str_eq i i' then none else lookup_in f' i' c.func_instances)
  unfolding remove_instance_locked left
  lookup-queues f' i' =
      ap (lookup_in f' i') (gone_fields (lookup i c.instance_runner) i left).3
      ∙ left_queues (lookup i c.instance_function) i (lookup i c.instance_queue) c f' i'
          (queues_at c valid i f' i')

  pub remove_instance_locked-IsConsistent : IsConsistent (remove_instance_locked i c)
  remove_instance_locked-IsConsistent = record {
    members = λ r' j.
        ground (arith, eq_iff i j, lookup-members r' j, lookup-runner j, valid.members r' j);
    queues = λ f' j. ground (
      arith,
      eq_iff i j,
      lookup-queues f' j,
      lookup-function j,
      lookup-queue j,
      valid.queues f' j,
    );
    measured = λ j. ground (arith, lookup-runner j, lookup-queue j, valid.measured j);
    placed = λ j e. ground (arith, lookup-runner j, lookup-function j, valid.placed j, e);
    named_runner = λ j. ground (arith, lookup-runner j, valid.named_runner j);
    named_function = λ j. ground (arith, lookup-function j, valid.named_function j);
  }

  left-IsCounted : (r' : String) → IsCounted c r' → IsCounted left r'
  unfolding left
  left-IsCounted r' counted =
      let (_, _, queue, members, requests, _) = left_fields (lookup i c.instance_function) i c in
      rw (requests, queue, members) counted

  absent : (r' : String) → lookup_in r' i (remove_instance_locked i c).runner_instances ≡ none
  absent r' = lookup-members r' i ∙ rw (eq_refl i)

  -- No runner's count goes wrong: the instance's own runner is counted anew.
  pub remove_instance_locked-IsCounted :
      (r' : String) → IsCounted c r' → IsCounted (remove_instance_locked i c) r'
  unfolding remove_instance_locked left
  remove_instance_locked-IsCounted r' counted =
      let owner = lookup i c.instance_runner in
      let queue = (gone_fields owner i left).2 in
      gone_counted owner i left r' (rw same_members (valid.members r' i))
        (left-IsCounted r' counted)
      ∙ rw queue (sym (sum_of-delete i left.instance_queue r' _ (absent r')))
