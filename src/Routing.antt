-- ===== src/Routing.antt =====
-- pkg/routing/router.go and pkg/routing/naive.go. A map argument lists its entries in the order in
-- which the `range` loop visits them, which Go leaves open. Thresholds are natural numbers: queue
-- lengths are never negative, so a negative threshold acts as 0.
pub mod Least
pub mod Route
pub mod Tests
use servermore.Base.{
  Option, String, [], if◌then◌else◌, leb, ltb, none, not, some, str_eq, ℕ, ◌&&◌, ◌-◌, ◌^◌, ◌∷◌,
}
use servermore.Base.Maps.{Map}
use servermore.Base.Results.{Result, err, ok, wrap, ◌>>=◌}
use servermore.Cache.{requests_per_runner}
use servermore.Cache.Interface.{CacheError, RoutingCache}

pub record Routing : Type 0 where
  pub runner_addr : String
  pub instance_id : String

-- The errors of `Route`: three that wrap the cache's, and two of its own.
pub data RouteError : Type 0 where
  instances_failed : CacheError → RouteError
  healthy_instance_failed : CacheError → RouteError
  requests_failed : CacheError → RouteError
  no_runner_available : RouteError
  prepare_instance : (function_id runner_addr : String) → RouteError

pub record NaiveRouter : Type 0 where
  pub instance_overload_threshold : ℕ
  pub runner_overload_threshold : ℕ

abbrev pub new_naive_router : ℕ → ℕ → NaiveRouter
new_naive_router instance_threshold runner_threshold = record {
  instance_overload_threshold = instance_threshold;
  runner_overload_threshold = runner_threshold;
}

-- `MaxInt`, 2^63 - 1.
abbrev pub max_int : ℕ
max_int = 2 ^ 63 - 1

-- The state of the loop of `pickLeastLoadedRunner`: the best address so far, and its count.
unfoldable pub least_loaded_from : ℕ → String → ℕ → Map ℕ → String
least_loaded_from threshold least_loaded min [] = least_loaded
least_loaded_from threshold least_loaded min ((runner_addr, requests) ∷ rest) =
    let takes = not (leb threshold requests) && ltb requests min in
    least_loaded_from threshold (if takes then runner_addr else least_loaded)
      (if takes then requests else min) rest

unfoldable pub pick_least_loaded_runner : Map ℕ → ℕ → String
unfolding least_loaded_from
pick_least_loaded_runner requests_per_runner overload_threshold =
    least_loaded_from overload_threshold "" max_int requests_per_runner

module _ {S : Type 0} (cache : RoutingCache S) where
  unfoldable pub pick_healthy_instance : Map ℕ → ℕ → S → Result CacheError (Option Routing)
  pick_healthy_instance [] overload_threshold s = ok none
  pick_healthy_instance ((inst_id, queue_len) ∷ rest) overload_threshold s =
      let later = pick_healthy_instance rest overload_threshold s in
      let picked = cache.runner_address_of_instance inst_id s >>= λ addr.
      ok (some (record { runner_addr = addr; instance_id = inst_id })) in
      if ltb queue_len overload_threshold then picked else later

  abbrev pub or_prepare : String → String → Result RouteError Routing
  or_prepare function_id healthy_runner =
      if str_eq healthy_runner ""
      then err no_runner_available
      else err (prepare_instance function_id healthy_runner)

  -- What `Route` does with the result of `pickHealthyInstance`.
  abbrev pub routed_or_prepare :
      NaiveRouter → String → S → Option Routing → Result RouteError Routing
  routed_or_prepare n function_id s (some routing) = ok routing
  routed_or_prepare n function_id s none =
      wrap requests_failed (cache.requests_per_runner s) >>= λ runners.
      or_prepare function_id (pick_least_loaded_runner runners n.runner_overload_threshold)

  unfoldable pub route : NaiveRouter → String → S → Result RouteError Routing
  unfolding pick_healthy_instance
  route n function_id s =
      wrap instances_failed (cache.function_id_instances function_id s) >>= λ instances.
      wrap healthy_instance_failed (pick_healthy_instance instances n.instance_overload_threshold s)
      >>= routed_or_prepare n function_id s
