-- ===== src/Cache/Interface.antt =====
-- pkg/caching/cache.go: the `RoutingCache` interface, and how `InMemoryCache` implements it.
use servermore.Base.{Option, String, none, some, ℕ, ◌↔◌, ◌≡◌}
use servermore.Base.Maps.{Has, Map, lookup}
use servermore.Base.Results.{Result, err, ok}
use servermore.Cache.{
  InMemoryCache, ResourceMetrics, cached_instances_count, function_id_instances, remove_runner,
  requests_per_runner, runner_address_of_instance, set_instance, stats_per_runner,
  upsert_runner_heartbeat,
}
use servermore.Cache

-- `no_runner_found` is the in-memory cache's only error. Another cache may have others, also one that
-- wraps `sql.ErrNoRows`, for which the commander looks.
pub data CacheError : Type 0 where
  no_runner_found : (instance_id : String) → CacheError
  wrapped_no_rows : CacheError
  backend_failed : (message : String) → CacheError

pub record RoutingCache (S : Type 0) : Type 0 where
  pub function_id_instances : String → S → Result CacheError (Map ℕ)
  pub runner_address_of_instance : String → S → Result CacheError String
  pub requests_per_runner : S → Result CacheError (Map ℕ)
  pub stats_per_runner : S → Result CacheError (Map ResourceMetrics)
  pub cached_instances_count : S → Result CacheError ℕ
  pub set_instance : String → String → String → ℕ → S → Result CacheError S
  pub upsert_runner_heartbeat : String → Map ℕ → ResourceMetrics → S → Result CacheError S
  pub remove_runner : String → S → Result CacheError S

abbrev pub found_address : String → Option String → Result CacheError String
found_address instance_id none = err (no_runner_found instance_id)
found_address instance_id (some addr) = ok addr

-- The reads hand out copies; `order` is the order in which `range` visits such a copy.
abbrev pub in_memory : (Map ℕ → Map ℕ) → RoutingCache InMemoryCache
in_memory order = record {
  function_id_instances = λ f c. ok (order (Cache.function_id_instances f c));
  runner_address_of_instance = λ i c. found_address i (Cache.runner_address_of_instance i c);
  requests_per_runner = λ c. ok (order (Cache.requests_per_runner c));
  stats_per_runner = λ c. ok (Cache.stats_per_runner c);
  cached_instances_count = λ c. ok (Cache.cached_instances_count c);
  set_instance = λ f i r q c. ok (Cache.set_instance f i r q c);
  upsert_runner_heartbeat =
      λ r depths metrics c. ok (Cache.upsert_runner_heartbeat r depths metrics c);
  remove_runner = λ r c. ok (Cache.remove_runner r c);
}

-- Go visits each entry of a map once, in any order: an order names the same entries.
abbrev pub IsOrder : (Map ℕ → Map ℕ) → Type 0
IsOrder order = (m : Map ℕ) (k : String) (v : ℕ) → Has k v (order m) ↔ (lookup k m ≡ some v)
