-- ===== src/Routing/Route.antt =====
-- `Route` over the in-memory cache.
use servermore.Base.{
  Bool-cases, Option, Option-cases, String, [], arith, eq_iff, inl, inr, ltb, ltb→lt, none, refl,
  some, str_cases, ℕ, ◌<◌, ◌∷◌, ◌≡◌, ◌≢◌, ◌≤◌, ◌⊎◌,
}
use servermore.Base.Maps.{Has, Map, lookup}
use servermore.Base.Results.{Result, err, ok, wrap, ◌>>=◌}
use servermore.Cache.{InMemoryCache}
use servermore.Cache.Interface.{CacheError, IsOrder, in_memory}
use servermore.Cache.Invariant.{IsValid}
use servermore.Cache.Placement.{placement}
use servermore.Cache.Queries.{placement_of_listed}
use servermore.Routing.{
  NaiveRouter, RouteError, Routing, healthy_instance_failed, no_runner_available, or_prepare,
  pick_healthy_instance, prepare_instance, route, routed_or_prepare,
}
use servermore.Routing.Least.{AllLoaded, IsLeastLoaded, pick_least_loaded_runner_correct}
use servermore.Cache

module _ (order : Map ℕ → Map ℕ) (visits : IsOrder order) (c : InMemoryCache)
    (valid : IsValid c) where
  -- The instances of a function, each with the runner and the queue length that the cache knows.
  abbrev pub Listed : String → Map ℕ → Type 0
  Listed f instances =
      (i : String) (q : ℕ)
      → Has i q instances
      → (r : String) × (placement c i
          ≡ some (record { function = some f; runner = r; queue_len = q }))

  abbrev pub AllOverloaded : ℕ → Map ℕ → Type 0
  AllOverloaded threshold instances = (i : String) (q : ℕ) → Has i q instances → threshold ≤ q

  -- What `pickHealthyInstance` may answer: an instance below the threshold on the runner that the
  -- cache knows, or none, with every instance at or above the threshold. Never an error.
  abbrev pub Picked : String → ℕ → Map ℕ → Result CacheError (Option Routing) → Type 0
  Picked f threshold instances (err e) = ⊥
  Picked f threshold instances (ok none) = AllOverloaded threshold instances
  Picked f threshold instances (ok (some routing)) =
      (q : ℕ) × Has routing.instance_id q instances
      × (q < threshold)
      × (placement c routing.instance_id
          ≡ some (record { function = some f; runner = routing.runner_addr; queue_len = q }))

  placed-runner :
      (i f r : String) (q : ℕ)
      → placement c i ≡ some (record { function = some f; runner = r; queue_len = q })
      → Cache.runner_address_of_instance i c ≡ some r
  unfolding Cache.runner_address_of_instance
  placed-runner i f r q e = elim (Option-cases (lookup i c.instance_runner)) [
    | inl missing ↦ ground (arith, missing)
    | inr (s, found) ↦ ground (arith, found)
  ]

  Picked-cons :
      (f : String) (threshold : ℕ) (i : String) (q : ℕ) (rest : Map ℕ)
      (result : Result CacheError (Option Routing))
      → threshold ≤ q
      → Picked f threshold rest result
      → Picked f threshold ((i, q) ∷ rest) result
  Picked-cons f threshold i q rest (err e) over p = p
  Picked-cons f threshold i q rest (ok none) over p =
      λ i' q' h. elim h [ inl (_, same) ↦ omega arith | inr later ↦ p i' q' later ]
  Picked-cons f threshold i q rest (ok (some routing)) over (q', here, low, placed) =
      (q', inr here, low, placed)

  pick_healthy_instance-Picked :
      (f : String) (threshold : ℕ) (instances : Map ℕ)
      → Listed f instances
      → Picked f threshold instances (pick_healthy_instance (in_memory order) instances threshold c)
  unfolding pick_healthy_instance
  pick_healthy_instance-Picked f threshold [] listed = λ i q h. absurd h
  pick_healthy_instance-Picked f threshold ((i, q) ∷ rest) listed =
      let later = pick_healthy_instance-Picked f threshold rest (λ i' q' h. listed i' q' (inr h)) in
      elim (Bool-cases (ltb q threshold)) [
        | inl low ↦
            let (r, placed) = listed i q (inl (refl, refl)) in
            rw (low, placed-runner i f r q placed)
              (q, inl (refl, refl), ltb→lt q threshold low, placed)
        | inr over ↦ rw over (
            Picked-cons f threshold i q rest
              (pick_healthy_instance (in_memory order) rest threshold c) (ground arith) later)
      ]

  instances-Listed : (f : String) → Listed f (order (Cache.function_id_instances f c))
  instances-Listed f i q h =
      placement_of_listed c f i q valid.consistent
        ((visits (Cache.function_id_instances f c) i q).0 h)

  -- What `Route` may answer: a healthy instance of the function; or, with every instance overloaded,
  -- a least loaded runner to prepare a new one on, or the error that all runners are loaded.
  abbrev pub Outcome : NaiveRouter → String → Result RouteError Routing → Type 0
  Outcome n f (ok routing) =
      (q : ℕ) × (q < n.instance_overload_threshold)
      × (placement c routing.instance_id
          ≡ some (record { function = some f; runner = routing.runner_addr; queue_len = q }))
  Outcome n f (err (prepare_instance g addr)) =
      (g ≡ f)
      × (addr ≢ "")
      × AllOverloaded n.instance_overload_threshold (order (Cache.function_id_instances f c))
      × IsLeastLoaded n.runner_overload_threshold (order (Cache.requests_per_runner c)) addr
  Outcome n f (err no_runner_available) =
      AllOverloaded n.instance_overload_threshold (order (Cache.function_id_instances f c))
      × AllLoaded n.runner_overload_threshold (order (Cache.requests_per_runner c))
  Outcome n f (err _) = ⊥

  or_prepare-Outcome :
      (n : NaiveRouter) (f : String) (addr : String)
      → AllOverloaded n.instance_overload_threshold (order (Cache.function_id_instances f c))
      → (let runners = order (Cache.requests_per_runner c) in
          ((addr ≡ "") × AllLoaded n.runner_overload_threshold runners)
          ⊎ IsLeastLoaded n.runner_overload_threshold runners addr)
      → ((q : ℕ) → Has "" q (order (Cache.requests_per_runner c)) → ⊥)
      → Outcome n f (or_prepare (in_memory order) f addr)
  or_prepare-Outcome n f addr over (inl (e, all)) named = rw e (over, all)
  or_prepare-Outcome n f addr over (inr (q, here, low, least)) named = elim (str_cases addr "") [
    | inl e ↦ absurd (named q (rw e at here))
    | inr e ↦ rw e (refl, (λ same. ground (arith, eq_iff addr "")), over, (q, here, low, least))
  ]

  answer_after_pick :
      (n : NaiveRouter) (f : String) (picked : Result CacheError (Option Routing))
      → lookup "" c.runner_requests ≡ none
      → Picked f n.instance_overload_threshold (order (Cache.function_id_instances f c)) picked
      → Outcome n f
          (wrap healthy_instance_failed picked >>= routed_or_prepare (in_memory order) n f c)
  unfolding Cache.requests_per_runner
  answer_after_pick n f (err _) named over = elim over [ ]
  answer_after_pick n f (ok none) named over =
      or_prepare-Outcome n f _ over
        (pick_least_loaded_runner_correct (order c.runner_requests) n.runner_overload_threshold)
        (λ q h. ground (arith, (visits c.runner_requests "" q).0 h, named))
  answer_after_pick n f (ok (some routing)) named (q, here, low, placed) = (q, low, placed)

  -- On a valid cache with no runner of an empty address, whatever the order in which maps are
  -- visited, `Route` answers one of three things. It routes to an instance of the function below the
  -- instance threshold, on the runner that holds it. Or every instance of the function is at or above
  -- that threshold, and it asks to prepare one on a runner below the runner threshold that no other
  -- such runner beats. Or every instance is overloaded and every runner loaded, and no runner is
  -- available. The cache's reads never fail.
  pub route-Outcome :
      (n : NaiveRouter) (f : String)
      → lookup "" c.runner_requests ≡ none
      → Outcome n f (route (in_memory order) n f c)
  unfolding route
  route-Outcome n f named = answer_after_pick n f _ named (
      pick_healthy_instance-Picked f n.instance_overload_threshold
        (order (Cache.function_id_instances f c)) (instances-Listed f))
