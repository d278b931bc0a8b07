-- ===== src/Commander/Routes.antt =====
-- `RouteFunction` with the in-memory cache and the naive router, as the commander is run.
use servermore.Base.{
  String, arith, eq_refl, inl, inr, none, refl, some, subst₂, ℕ, ◌<◌, ◌∙◌, ◌≡◌, ◌≢◌, ◌⊎◌,
}
use servermore.Base.Maps.{Map, lookup}
use servermore.Base.Results.{Result, err, first_ok, ok}
use servermore.Cache.{InMemoryCache}
use servermore.Cache.Interface.{IsOrder, in_memory}
use servermore.Cache.Invariant.{IsValid}
use servermore.Cache.Placement.{placement}
use servermore.Cache.Queries.{listed_of_placement}
use servermore.Cache.SetInstance.{
  placement-set_instance, set_instance-IsValid, set_instance-unnamed,
}
use servermore.Commander.Service.{
  Service, after_route, find_function, prepare_instance_on, request_instance, route_function,
}
use servermore.Routing.{
  NaiveRouter, RouteError, Routing, no_runner_available, prepare_instance, route,
}
use servermore.Routing.Route.{AllOverloaded, Outcome, route-Outcome}
use servermore.Cache

module _ {Key D : Type 0} (order : Map ℕ → Map ℕ) (visits : IsOrder order) (n : NaiveRouter)
    (base : Service Key D InMemoryCache) where
  abbrev pub commander : Service Key D InMemoryCache
  commander = record base { cache = in_memory order; route = λ f c. route (in_memory order) n f c }

  -- A cache that the commander can route by: valid, and with no runner of an empty address.
  abbrev pub IsRoutable : InMemoryCache → Type 0
  IsRoutable c = IsValid c × (lookup "" c.runner_requests ≡ none)

  -- What a successful `RouteFunction` leaves: the instance that it routes to is placed on that runner
  -- for that function, below the instance threshold, if the threshold is not 0.
  abbrev pub IsRouted : String → Routing → InMemoryCache → Type 0
  IsRouted f routing c =
      (q : ℕ) × ((q < n.instance_overload_threshold) ⊎ (q ≡ 0))
      × (placement c routing.instance_id
          ≡ some (record { function = some f; runner = routing.runner_addr; queue_len = q }))

  prepared :
      (f r : String) (d : D) (c c' : InMemoryCache) (routing : Routing)
      → prepare_instance_on commander f r d c ≡ ok (routing, c')
      → (i : String) × (record { runner_addr = r; instance_id = i } ≡ routing)
        × (Cache.set_instance f i r 0 c ≡ c')
  unfolding prepare_instance_on
  prepared f r d c c' routing e =
      let (function, requested) = first_ok (find_function commander f d) _ e in
      let (i, stored) = first_ok (request_instance commander f r function) _ requested in
      (i, ground (arith, stored), ground (arith, stored))

  IsRouted-prepared :
      (f r i : String) (c : InMemoryCache)
      → f ≢ ""
      → r ≢ ""
      → IsRoutable c
      → IsRoutable (Cache.set_instance f i r 0 c)
        × IsRouted f (record { runner_addr = r; instance_id = i }) (Cache.set_instance f i r 0 c)
  IsRouted-prepared f r i c named_f named_r (valid, unnamed) = (
    (
      set_instance-IsValid c f i r 0 valid.consistent named_f named_r valid.counted,
      set_instance-unnamed c f i r 0 valid.consistent named_r unnamed,
    ),
    (0, inr refl, placement-set_instance c f i r 0 valid.consistent i ∙ rw (eq_refl i)),
  )

  prepare_instance_on-IsRouted :
      (f r : String) (d : D) (c c' : InMemoryCache) (routing : Routing)
      → f ≢ ""
      → r ≢ ""
      → IsRoutable c
      → prepare_instance_on commander f r d c ≡ ok (routing, c')
      → IsRoutable c' × IsRouted f routing c'
  prepare_instance_on-IsRouted f r d c c' routing named_f named_r routable e =
      let (i, same_routing, same_cache) = prepared f r d c c' routing e in
      subst₂ (λ x y. IsRoutable x × IsRouted f y x) same_cache same_routing
        (IsRouted-prepared f r i c named_f named_r routable)

  after_route-IsRouted :
      (f : String) (d : D) (c c' : InMemoryCache) (routing : Routing)
      (answer : Result RouteError Routing) (valid : IsValid c)
      → f ≢ ""
      → lookup "" c.runner_requests ≡ none
      → Outcome order visits c valid n f answer
      → after_route commander f d c answer ≡ ok (routing, c')
      → IsRoutable c' × IsRouted f routing c'
  after_route-IsRouted f d c c' routing (ok found) valid named unnamed (q, low, placed) e =
      subst₂ (λ x y. IsRoutable x × IsRouted f y x) (ground (arith, e)) (ground (arith, e))
        ((valid, unnamed), (q, inl low, placed))
  after_route-IsRouted f d c c' routing (err (prepare_instance g r)) valid named unnamed
        (same, named_r, _, _) e =
      prepare_instance_on-IsRouted f r d c c' routing named named_r (valid, unnamed) (rw same at e)
  after_route-IsRouted f d c c' routing (err no_runner_available) valid named unnamed _ e = cc
  after_route-IsRouted f d c c' routing (err other) valid named unnamed impossible e =
      absurd impossible

  -- A successful `RouteFunction` on a valid cache with no runner of an empty address, for a function
  -- id that is not empty, leaves such a cache again; in it, the instance that the caller is sent to is
  -- placed on the returned runner for this function, with a queue below the instance threshold or
  -- empty.
  pub route_function-IsRouted :
      (f : String) (d : D) (c c' : InMemoryCache) (routing : Routing)
      → f ≢ ""
      → IsRoutable c
      → route_function commander f d c ≡ ok (routing, c')
      → IsRoutable c' × IsRouted f routing c'
  unfolding route_function
  route_function-IsRouted f d c c' routing named (valid, unnamed) e =
      after_route-IsRouted f d c c' routing (route (in_memory order) n f c) valid named unnamed
        (route-Outcome order visits c valid n f unnamed) e

  not_overloaded :
      (f : String) (c : InMemoryCache) (routing : Routing)
      → 0 < n.instance_overload_threshold
      → (valid : IsValid c) → IsRouted f routing c
      → ¬ AllOverloaded order visits c valid n.instance_overload_threshold
          (order (Cache.function_id_instances f c))
  not_overloaded f c routing positive valid (q, low, placed) over =
      let listed =
        listed_of_placement c f routing.instance_id routing.runner_addr q valid.consistent placed in
      let least =
        over routing.instance_id q
          ((visits (Cache.function_id_instances f c) routing.instance_id q).1 listed) in
      omega arith

  hit :
      (f : String) (d : D) (c : InMemoryCache) (routing : Routing) (valid : IsValid c)
      (answer : Result RouteError Routing)
      → 0 < n.instance_overload_threshold
      → IsRouted f routing c
      → Outcome order visits c valid n f answer
      → (routing' : Routing) × (after_route commander f d c answer ≡ ok (routing', c))
  hit f d c routing valid (ok found) positive routed outcome = (found, refl)
  hit f d c routing valid (err (prepare_instance g r)) positive routed (_, _, over, _) =
      absurd (not_overloaded f c routing positive valid routed over)
  hit f d c routing valid (err no_runner_available) positive routed (over, _) =
      absurd (not_overloaded f c routing positive valid routed over)
  hit f d c routing valid (err other) positive routed impossible = absurd impossible

  -- Once `RouteFunction` has succeeded for a function, with an instance threshold above 0, the next
  -- call for it on the cache that is left succeeds whatever the database holds, prepares nothing and
  -- leaves the cache as it is.
  pub route_function_again :
      (f : String) (d d' : D) (c c' : InMemoryCache) (routing : Routing)
      → 0 < n.instance_overload_threshold
      → f ≢ ""
      → IsRoutable c
      → route_function commander f d c ≡ ok (routing, c')
      → (routing' : Routing) × (route_function commander f d' c' ≡ ok (routing', c'))
  unfolding route_function
  route_function_again f d d' c c' routing positive named routable e =
      let ((valid, unnamed), routed) = route_function-IsRouted f d c c' routing named routable e in
      hit f d' c' routing valid (route (in_memory order) n f c') positive routed
        (route-Outcome order visits c' valid n f unnamed)
