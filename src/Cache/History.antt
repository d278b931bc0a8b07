-- ===== src/Cache/History.antt =====
-- The writing calls of the `RoutingCache` interface, in the order in which they take the mutex.
use servermore.Base.{All, List, String, [], ℕ, ◌∷◌, ◌≢◌}
use servermore.Base.Maps.{Map}
use servermore.Cache.{
  InMemoryCache, ResourceMetrics, new_in_memory_cache, remove_runner, set_instance,
  upsert_runner_heartbeat,
}
use servermore.Cache.Invariant.{IsValid, new_in_memory_cache-IsValid}
use servermore.Cache.RemoveRunner.{remove_runner-IsValid}
use servermore.Cache.SetInstance.{set_instance-IsValid}
use servermore.Cache.Upsert.{upsert_runner_heartbeat-IsValid}

pub data Call : Type 0 where
  set_instance_call : (func_id instance_id runner_addr : String) → (queue_len : ℕ) → Call
  heartbeat_call : (runner_addr : String) → (queue_depths : Map ℕ) → ResourceMetrics → Call
  remove_runner_call : (runner_addr : String) → Call

unfoldable pub apply : Call → InMemoryCache → InMemoryCache
apply (set_instance_call f i r q) c = set_instance f i r q c
apply (heartbeat_call r depths metrics) c = upsert_runner_heartbeat r depths metrics c
apply (remove_runner_call r) c = remove_runner r c

unfoldable pub apply_all : List Call → InMemoryCache → InMemoryCache
apply_all [] c = c
apply_all (call ∷ calls) c = apply_all calls (apply call c)

-- The source reads an empty text as "not there", so ids and addresses must not be empty.
abbrev pub IsNamed : Call → Type 0
IsNamed (set_instance_call f i r q) = (f ≢ "") × (r ≢ "")
IsNamed (heartbeat_call r depths metrics) = r ≢ ""
IsNamed (remove_runner_call r) = Unit

pub apply-IsValid :
    (call : Call) (c : InMemoryCache) → IsNamed call → IsValid c → IsValid (apply call c)
unfolding apply
apply-IsValid (set_instance_call f i r q) c (named_f, named_r) v =
    set_instance-IsValid c f i r q v.consistent named_f named_r v.counted
apply-IsValid (heartbeat_call r depths metrics) c named v =
    upsert_runner_heartbeat-IsValid r named depths metrics c v.consistent v.counted
apply-IsValid (remove_runner_call r) c _ v = remove_runner-IsValid r c v.consistent v.counted

apply_all-IsValid_from :
    (calls : List Call) (c : InMemoryCache)
    → All IsNamed calls
    → IsValid c
    → IsValid (apply_all calls c)
unfolding apply_all
apply_all-IsValid_from [] c named v = v
apply_all-IsValid_from (call ∷ calls) c (n, named) v =
    apply_all-IsValid_from calls (apply call c) named (apply-IsValid call c n v)

-- Whatever sequence of writing calls with non-empty function ids and runner addresses is made on a
-- new cache, its maps agree and every runner's request count is the sum over its instances.
pub apply_all-IsValid :
    (calls : List Call) → All IsNamed calls → IsValid (apply_all calls new_in_memory_cache)
apply_all-IsValid calls named =
    apply_all-IsValid_from calls new_in_memory_cache named new_in_memory_cache-IsValid
