-- ===== src/Cache/Queries.antt =====
-- What the reading calls answer.
use servermore.Base.{
  Option, Option-cases, String, [], arith, eq_iff, eq_refl, inl, inr, none, some, str_ne, sym, ℕ,
  ◌∙◌, ◌≡◌, ◌≢◌,
}
use servermore.Base.Maps.{get_or, is_some, lookup, lookup-insert}
use servermore.Base.Nested.{insert_in, lookup-in-insert, lookup-row, lookup_in}
use servermore.Cache.{
  InMemoryCache, function_id_instances, runner_address_of_instance, update_instance_queue_len,
}
use servermore.Cache.Invariant.{IsConsistent, queued_for}
use servermore.Cache.Placement.{placed_by, placement}

-- `RunnerAddressOfInstance` finds a runner for every instance that `FunctionIdInstances` lists, and
-- the runner's set holds the instance, if the cache is consistent.
runner_address-function_id_instances :
    (c : InMemoryCache) (f i : String) (q : ℕ)
    → IsConsistent c
    → lookup i (function_id_instances f c) ≡ some q
    → (r : String) × (runner_address_of_instance i c ≡ some r)
      × (lookup_in r i c.runner_instances ≡ some tt)
unfolding runner_address_of_instance function_id_instances
runner_address-function_id_instances c f i q valid listed =
    elim (Option-cases (lookup i c.instance_runner)) [
      | inl e ↦ absurd (
          ground
            (arith, e, valid.placed i, valid.queues f i, lookup-row f i c.func_instances, listed))
      | inr (r, e) ↦ (r, e, valid.members r i ∙ rw e (rw (eq_refl r)))
    ]

placed_by_queued :
    (f : String) (fn ru : Option String) (qu : Option ℕ) (q : ℕ) (r : String)
    → queued_for f fn qu ≡ some q
    → ru ≡ some r
    → placed_by fn ru qu ≡ some (record { function = some f; runner = r; queue_len = q })
placed_by_queued f none ru qu q r listed e = cc
placed_by_queued f (some g) ru qu q r listed e = ground (arith, eq_iff g f, listed, e)

-- An instance that `FunctionIdInstances` lists is placed, with that function and queue length.
pub placement_of_listed :
    (c : InMemoryCache) (f i : String) (q : ℕ)
    → IsConsistent c
    → lookup i (function_id_instances f c) ≡ some q
    → (r : String) × (placement c i
        ≡ some (record { function = some f; runner = r; queue_len = q }))
unfolding function_id_instances runner_address_of_instance
placement_of_listed c f i q valid listed =
    let (r, found, _) = runner_address-function_id_instances c f i q valid listed in
    let queued = sym (valid.queues f i) ∙ sym (lookup-row f i c.func_instances) ∙ listed in
    (
      r,
      placed_by_queued f (lookup i c.instance_function) _ (lookup i c.instance_queue) q r queued
          found,
    )

queued_of_placed :
    (f r : String) (fn ru : Option String) (qu : Option ℕ) (q : ℕ)
    → is_some qu ≡ is_some ru
    → placed_by fn ru qu ≡ some (record { function = some f; runner = r; queue_len = q })
    → queued_for f fn qu ≡ some q
queued_of_placed f r fn none qu q same e = cc
queued_of_placed f r none (some s) qu q same e = cc
queued_of_placed f r (some g) (some s) none q same e = cc
queued_of_placed f r (some g) (some s) (some k) q same e = ground (arith, eq_iff g f, e)

-- A placed instance of a function is listed by `FunctionIdInstances`.
pub listed_of_placement :
    (c : InMemoryCache) (f i r : String) (q : ℕ)
    → IsConsistent c
    → placement c i ≡ some (record { function = some f; runner = r; queue_len = q })
    → lookup i (function_id_instances f c) ≡ some q
unfolding function_id_instances
listed_of_placement c f i r q valid placed =
    lookup-row f i c.func_instances
    ∙ valid.queues f i
    ∙ queued_of_placed f r (lookup i c.instance_function) (lookup i c.instance_runner)
        (lookup i c.instance_queue) q (valid.measured i) placed

-- `UpdateInstanceQueueLen` does not take an instance out of the map of its old function: if it names
-- another function, `FunctionIdInstances` goes on listing the instance under the old one, and the
-- cache is no longer consistent.
pub update_instance_queue_len_stale :
    (c : InMemoryCache) (f g i : String) (q q' : ℕ)
    → f ≢ g
    → lookup i (function_id_instances f c) ≡ some q
    → (lookup i (function_id_instances f (update_instance_queue_len g i q' c)) ≡ some q)
      × (¬ IsConsistent (update_instance_queue_len g i q' c))
unfolding function_id_instances update_instance_queue_len
update_instance_queue_len_stale c f g i q q' other listed =
    let differ = str_ne g f (λ e. other (sym e)) in
    let entries = insert_in g i q' c.func_instances in
    let old : lookup_in f i entries ≡ lookup_in f i c.func_instances =
      lookup-in-insert g i q' c.func_instances f i ∙ rw differ in
    let still : lookup i (get_or [] (lookup f entries)) ≡ some q =
      lookup-row f i entries ∙ old ∙ sym (lookup-row f i c.func_instances) ∙ listed in
    (
      still,
      λ valid. ground (
        arith,
        eq_refl i,
        differ,
        still,
        lookup-row f i entries,
        valid.queues f i,
        lookup-insert i i g c.instance_function,
      ),
    )
