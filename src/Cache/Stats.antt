-- ===== src/Cache/Stats.antt =====
-- `runnerStats`, the map that is read by metrics only, over the writing calls.
use servermore.Base.{
  All, Bool-cases, List, Option, String, [], ap, if◌then◌else◌, inl, inr, none, refl, some, str_eq,
  ℕ, ◌∙◌, ◌∷◌, ◌≡◌,
}
use servermore.Base.Maps.{Map, get_or, is_some, lookup, lookup-delete, lookup-insert}
use servermore.Cache.{
  InMemoryCache, ResourceMetrics, Set, drop_instance, drop_unreported, leave_known_function,
  leave_known_runner, new_in_memory_cache, own_instance, previous_instances,
  recompute_runner_requests_locked, remove_function_instance_locked, remove_instance_locked,
  remove_instances, remove_runner, remove_runner_instance_locked, report_instance, report_instances,
  reported, set_instance, store_reported, upsert_runner_heartbeat,
}
use servermore.Cache.History.{
  Call, IsNamed, apply, apply_all, apply_all-IsValid, heartbeat_call, remove_runner_call,
  set_instance_call,
}
use servermore.Cache.Invariant.{IsValid}

leave_known_runner-stats :
    (runner_addr : Option String) (i : String) (c : InMemoryCache)
    → (leave_known_runner runner_addr i c).runner_stats ≡ c.runner_stats
unfolding leave_known_runner recompute_runner_requests_locked remove_runner_instance_locked
leave_known_runner-stats none i c = refl
leave_known_runner-stats (some r) i c = refl

leave_known_function-stats :
    (func_id : Option String) (i : String) (c : InMemoryCache)
    → (leave_known_function func_id i c).runner_stats ≡ c.runner_stats
unfolding leave_known_function remove_function_instance_locked
leave_known_function-stats none i c = refl
leave_known_function-stats (some f) i c = refl

remove_instance_locked-stats :
    (i : String) (c : InMemoryCache) → (remove_instance_locked i c).runner_stats ≡ c.runner_stats
unfolding remove_instance_locked
remove_instance_locked-stats i c =
    leave_known_runner-stats (lookup i c.instance_runner) i
      (leave_known_function (lookup i c.instance_function) i c)
    ∙ leave_known_function-stats (lookup i c.instance_function) i c

store_reported-stats :
    (func_id : Option String) (i : String) (q : ℕ) (c : InMemoryCache)
    → (store_reported func_id i q c).runner_stats ≡ c.runner_stats
unfolding store_reported
store_reported-stats none i q c = refl
store_reported-stats (some f) i q c = refl

report_instance-stats :
    (r i : String) (q : ℕ) (c : InMemoryCache)
    → (report_instance r i q c).runner_stats ≡ c.runner_stats
unfolding report_instance own_instance
report_instance-stats r i q c =
    let added = own_instance r i q c in
    store_reported-stats (lookup i added.instance_function) i q added

report_instances-stats :
    (r : String) (depths : Map ℕ) (c : InMemoryCache)
    → (report_instances r depths c).runner_stats ≡ c.runner_stats
unfolding report_instances
report_instances-stats r [] c = refl
report_instances-stats r ((i, q) ∷ depths) c =
    report_instances-stats r depths (report_instance r i q c) ∙ report_instance-stats r i q c

drop_instance-stats :
    (new_instances : Set) (i : String) (c : InMemoryCache)
    → (drop_instance new_instances i c).runner_stats ≡ c.runner_stats
unfolding drop_instance
drop_instance-stats new_instances i c = elim (Bool-cases (is_some (lookup i new_instances))) [
  | inl named ↦ rw named refl
  | inr unnamed ↦ rw unnamed (remove_instance_locked-stats i c)
]

drop_unreported-stats :
    (new_instances previous : Set) (c : InMemoryCache)
    → (drop_unreported new_instances previous c).runner_stats ≡ c.runner_stats
unfolding drop_unreported
drop_unreported-stats new_instances [] c = refl
drop_unreported-stats new_instances ((i, _) ∷ previous) c =
    drop_unreported-stats new_instances previous (drop_instance new_instances i c)
    ∙ drop_instance-stats new_instances i c

remove_instances-stats :
    (instances : Set) (c : InMemoryCache)
    → (remove_instances instances c).runner_stats ≡ c.runner_stats
unfolding remove_instances
remove_instances-stats [] c = refl
remove_instances-stats ((i, _) ∷ instances) c =
    remove_instances-stats instances (remove_instance_locked i c) ∙ remove_instance_locked-stats i c

-- The metrics of a runner: those of its last heartbeat, if it has not been removed since.
abbrev pub metrics_after : String → Call → Option ResourceMetrics → Option ResourceMetrics
metrics_after r (set_instance_call f i s q) before = before
metrics_after r (heartbeat_call s depths metrics) before =
    if str_eq s r then some metrics else before
metrics_after r (remove_runner_call s) before = if str_eq s r then none else before

unfoldable pub last_metrics : String → List Call → Option ResourceMetrics → Option ResourceMetrics
last_metrics r [] before = before
last_metrics r (call ∷ calls) before = last_metrics r calls (metrics_after r call before)

apply-metrics :
    (call : Call) (r : String) (c : InMemoryCache)
    → lookup r ((apply call c).runner_stats) ≡ metrics_after r call (lookup r c.runner_stats)
unfolding apply upsert_runner_heartbeat remove_runner set_instance
apply-metrics (set_instance_call f i s q) r c = refl
apply-metrics (heartbeat_call s depths metrics) r c =
    let reports = report_instances s depths c in
    let dropped =
      drop_unreported-stats (reported depths []) (previous_instances s c reports) reports
      ∙ report_instances-stats s depths c in
    lookup-insert s r metrics _ ∙ ap (λ m. if str_eq s r then some metrics else lookup r m) dropped
apply-metrics (remove_runner_call s) r c =
    lookup-delete s r _
    ∙ ap (λ m. if str_eq s r then none else lookup r m)
        (remove_instances-stats (get_or [] (lookup s c.runner_instances)) c)

pub apply_all-metrics :
    (calls : List Call) (r : String) (c : InMemoryCache)
    → lookup r ((apply_all calls c).runner_stats) ≡ last_metrics r calls (lookup r c.runner_stats)
unfolding apply_all last_metrics
apply_all-metrics [] r c = refl
apply_all-metrics (call ∷ calls) r c =
    apply_all-metrics calls r (apply call c) ∙ ap (last_metrics r calls) (apply-metrics call r c)

-- Whatever sequence of the writing calls of the `RoutingCache` interface, with function ids and runner
-- addresses that are not empty, is made on a new cache: the maps of functions, of instances and of the
-- runners' instances agree, each runner's request count is the sum over its instances, and the metrics
-- of a runner are those of its last heartbeat, or none where it has been removed since. The writing
-- methods that the interface lacks are not among the calls.
pub apply_all-IsWhole :
    (calls : List Call)
    → All IsNamed calls
    → IsValid (apply_all calls new_in_memory_cache)
      × ((r : String)
          → lookup r ((apply_all calls new_in_memory_cache).runner_stats)
            ≡ last_metrics r calls none)
unfolding lookup
apply_all-IsWhole calls named =
    (apply_all-IsValid calls named, λ r. apply_all-metrics calls r new_in_memory_cache)
