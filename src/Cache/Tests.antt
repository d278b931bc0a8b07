-- ===== src/Cache/Tests.antt =====
-- Runs of the cache on small inputs, and its theorems at concrete inputs.
use servermore.Base.{
  All, List, String, [], arith, none, refl, some, str_distinct, ℕ, ◌<◌, ◌^◌, ◌∷◌, ◌≡◌,
}
use servermore.Base.Maps.{delete, insert, lookup}
use servermore.Base.Nested.{delete_in, drop_in, insert_in, lookup_in}
use servermore.Cache.{
  InMemoryCache, ResourceMetrics, drop_instance, drop_unreported, function_id_instances, has_moved,
  new_in_memory_cache, previous_instances, recompute_runner_requests_locked, recount,
  remove_instance_locked, remove_instances, remove_runner, report_instance, report_instances,
  reported, requests_per_runner, runner_address_of_instance, set_instance, total_requests,
  update_instance_queue_len, upsert_runner_heartbeat,
}
use servermore.Cache.Bounds.{IsShort, apply_all-requests-lt}
use servermore.Cache.History.{
  Call, IsNamed, apply, apply_all, apply_all-IsValid, heartbeat_call, set_instance_call,
}
use servermore.Cache.Invariant.{IsConsistent, IsValid}
use servermore.Cache.Placement.{placement}
use servermore.Cache.Queries.{update_instance_queue_len_stale}
use servermore.Cache.Refinement.{IsMap, all_on_view, placement-apply_all}
use servermore.Cache.Stats.{apply_all-IsWhole, last_metrics}

unfoldable pub cache_model : Unit {0}
unfolding set_instance remove_instance_locked report_instances report_instance drop_unreported
    drop_instance reported previous_instances upsert_runner_heartbeat remove_instances remove_runner
    has_moved apply apply_all recompute_runner_requests_locked recount total_requests lookup insert
    delete lookup_in insert_in delete_in drop_in function_id_instances runner_address_of_instance
    update_instance_queue_len
cache_model = tt

abbrev pub stats : ResourceMetrics
stats = record { cpu_percent = 0; unused_memory_bytes = 1024 }

-- Two runners; the instance "i1" of function "7" runs on "a:1", and "i2" on "b:1".
abbrev calls : List Call
calls =
    heartbeat_call "a:1" [] stats
    ∷ heartbeat_call "b:1" [] stats
    ∷ set_instance_call "7" "i1" "a:1" 0
    ∷ set_instance_call "7" "i2" "b:1" 0
    ∷ heartbeat_call "a:1" (("i1", 4) ∷ ("i3", 2) ∷ []) stats
    ∷ []

All-IsNamed : All IsNamed calls
All-IsNamed = (
  str_distinct "a:1" "" refl,
  (
    str_distinct "b:1" "" refl,
    (
      (str_distinct "7" "" refl, str_distinct "a:1" "" refl),
      ((str_distinct "7" "" refl, str_distinct "b:1" "" refl), (str_distinct "a:1" "" refl, tt)),
    ),
  ),
)

abbrev pub two_runners : InMemoryCache
two_runners = apply_all calls new_in_memory_cache

requests_after : requests_per_runner two_runners ≡ ("a:1", 6) ∷ ("b:1", 0) ∷ []
unfolding cache_model requests_per_runner
requests_after = refl

instances_after : function_id_instances "7" two_runners ≡ ("i1", 4) ∷ ("i2", 0) ∷ []
unfolding cache_model
instances_after = refl

-- The next heartbeat no longer names "i1".
dropped_after :
    function_id_instances "7" (upsert_runner_heartbeat "a:1" (("i3", 1) ∷ []) stats two_runners)
    ≡ ("i2", 0) ∷ []
unfolding cache_model
dropped_after = refl

removed_after : requests_per_runner (remove_runner "a:1" two_runners) ≡ ("b:1", 0) ∷ []
unfolding cache_model requests_per_runner
removed_after = refl

pub two_runners-IsValid : IsValid two_runners
two_runners-IsValid = apply_all-IsValid calls All-IsNamed

apply_all-IsWhole_example :
    IsValid (apply_all calls new_in_memory_cache)
    × ((r : String)
        → lookup r ((apply_all calls new_in_memory_cache).runner_stats) ≡ last_metrics r calls none)
apply_all-IsWhole_example = apply_all-IsWhole calls All-IsNamed

metrics_kept : last_metrics "a:1" calls none ≡ some stats
unfolding last_metrics
metrics_kept = refl

update_instance_queue_len_stale_example :
    (lookup "i1" (function_id_instances "7" (update_instance_queue_len "8" "i1" 9 two_runners))
      ≡ some 4)
    × (¬ IsConsistent (update_instance_queue_len "8" "i1" 9 two_runners))
unfolding cache_model
update_instance_queue_len_stale_example =
    update_instance_queue_len_stale two_runners "7" "8" "i1" 4 9 (str_distinct "7" "8" refl) refl

All-IsMap : All IsMap calls
unfolding lookup
All-IsMap = (tt, (tt, (tt, (tt, ((refl, (refl, tt)), tt)))))

placement-apply_all_example :
    placement (apply_all calls new_in_memory_cache) "i1" ≡ all_on_view calls (λ i. none) "i1"
placement-apply_all_example = placement-apply_all calls "i1" All-IsNamed All-IsMap

short_depths : (j : String) (d : ℕ) → lookup j (("i1", 4) ∷ ("i3", 2) ∷ []) ≡ some d → d < 2 ^ 32
unfolding lookup
short_depths j d e = ground arith

no_depths : (j : String) (d : ℕ) → lookup j [] ≡ some d → d < 2 ^ 32
unfolding lookup
no_depths j d e = cc

All-IsShort : All IsShort calls
All-IsShort = (no_depths, (no_depths, (omega arith, (omega arith, (short_depths, tt)))))

apply_all-requests-lt_example : 6 < 2 ^ 63
unfolding cache_model requests_per_runner
apply_all-requests-lt_example =
    apply_all-requests-lt calls "a:1" (("i1", tt) ∷ ("i3", tt) ∷ []) 6 All-IsNamed All-IsMap
      All-IsShort refl (omega arith) refl
