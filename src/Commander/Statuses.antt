-- ===== src/Commander/Statuses.antt =====
-- What the statuses of the commander's endpoints tell a client.
use servermore.Base.{
  Bool-cases, Option-cases, String, ap, arith, inl, inr, none, refl, ℕ, ◌∙◌, ◌≡◌, ◌≢◌, ◌≤◌, ◌⊎◌,
}
use servermore.Base.Maps.{Has, Map, lookup}
use servermore.Base.Results.{Result, err, err_steps, err_wrapped, ok, wrap, ◌>>=◌}
use servermore.Cache.{InMemoryCache}
use servermore.Cache.Interface.{IsOrder, in_memory}
use servermore.Cache.Invariant.{IsValid}
use servermore.Cache.Queries.{listed_of_placement}
use servermore.Commander.Handlers.{GrpcStatus, grpc_route_function, grpc_status, unavailable}
use servermore.Commander.Routes.{commander}
use servermore.Commander.Service.{
  Service, ServiceError, after_route, bad_function_id, cache_update_failed, call_failed,
  client_failed, exists_check_failed, find_function, function_exists, function_not_found,
  function_read_failed, heartbeat_failed, is_no_rows, persist_failed, prepare_instance_on,
  query_failed, read_failed, route_function, router_failed, runner_query_failed, runner_save_failed,
  save_failed,
}
use servermore.Routing.{
  NaiveRouter, RouteError, Routing, healthy_instance_failed, instances_failed, no_runner_available,
  prepare_instance, requests_failed, route,
}
use servermore.Routing.Least.{AllLoaded}
use servermore.Routing.Route.{AllOverloaded, Outcome, route-Outcome}
use servermore.Cache

module _ {Key D S : Type 0} (svc : Service Key D S) where
  find_function-available :
      (function_id : String) (d : D)
      → find_function svc function_id d ≢ err (router_failed no_runner_available)
  find_function-available function_id d e = elim (Option-cases (svc.parse_int function_id)) [
    | inl unparsed ↦ let impossible = rw (unparsed, find_function) at e in cc
    | inr (id, parsed) ↦
        let (cause, _, same) =
          err_wrapped _ (svc.db.function_by_id id d) (rw (parsed, find_function) at e) in
        elim (Bool-cases (is_no_rows cause)) [
          | inl missing ↦ let impossible = rw missing at same in cc
          | inr other ↦ let impossible = rw other at same in cc
        ]
  ]

  prepare_instance_on-available :
      (function_id runner_addr : String) (d : D) (s : S)
      → prepare_instance_on svc function_id runner_addr d s
        ≢ err (router_failed no_runner_available)
  unfolding prepare_instance_on
  prepare_instance_on-available function_id runner_addr d s e =
      elim (err_steps (find_function svc function_id d) _ e) [
        | inl unfound ↦ find_function-available function_id d unfound
        | inr (function, e1) ↦
            elim (err_steps
              (wrap client_failed (svc.runners.create_client runner_addr) >>= λ _.
                wrap call_failed
                  (svc.runners.prepare_function_instance runner_addr function_id function.path))
              _ e1) [
                | inl unmade ↦
                    elim (err_steps (wrap client_failed (svc.runners.create_client runner_addr)) _
                      unmade) [
                        | inl unconnected ↦
                            let (cause, _, same) = err_wrapped client_failed _ unconnected in cc
                        | inr (_, uncalled) ↦
                            let (cause, _, same) = err_wrapped call_failed _ uncalled in cc
                      ]
                | inr (instance_id, e2) ↦
                    elim (err_steps
                      (wrap cache_update_failed
                        (svc.cache.set_instance function_id instance_id runner_addr 0 s))
                      _ e2) [
                        | inl uncached ↦
                            let (cause, _, same) = err_wrapped cache_update_failed _ uncached in cc
                        | inr (s', done) ↦ cc
                      ]
              ]
      ]

-- The status unavailable is the router's own answer, or one that an error has wrapped.
unavailable_cause :
    (wire_status : ServiceError → GrpcStatus) (cause : ServiceError)
    → grpc_status wire_status cause ≡ unavailable
    → (cause ≡ router_failed no_runner_available) ⊎ (wire_status cause ≡ unavailable)
unavailable_cause wire_status (router_failed no_runner_available) e = inl refl
unavailable_cause wire_status function_not_found e = cc
unavailable_cause wire_status (router_failed (prepare_instance f r)) e = inr e
unavailable_cause wire_status (router_failed (instances_failed x)) e = inr e
unavailable_cause wire_status (router_failed (healthy_instance_failed x)) e = inr e
unavailable_cause wire_status (router_failed (requests_failed x)) e = inr e
unavailable_cause wire_status function_exists e = inr e
unavailable_cause wire_status (read_failed x) e = inr e
unavailable_cause wire_status (save_failed x) e = inr e
unavailable_cause wire_status (exists_check_failed x) e = inr e
unavailable_cause wire_status (persist_failed x) e = inr e
unavailable_cause wire_status (query_failed x) e = inr e
unavailable_cause wire_status (runner_query_failed x) e = inr e
unavailable_cause wire_status (bad_function_id x) e = inr e
unavailable_cause wire_status (function_read_failed x) e = inr e
unavailable_cause wire_status (client_failed x) e = inr e
unavailable_cause wire_status (call_failed x) e = inr e
unavailable_cause wire_status (cache_update_failed x) e = inr e
unavailable_cause wire_status (heartbeat_failed x) e = inr e
unavailable_cause wire_status (runner_save_failed x) e = inr e

unavailable_after :
    {Key D : Type 0} (order : Map ℕ → Map ℕ) (visits : IsOrder order) (n : NaiveRouter)
    (base : Service Key D InMemoryCache) (f : String) (d : D) (c : InMemoryCache)
    (valid : IsValid c) (answer : Result RouteError Routing)
    → Outcome order visits c valid n f answer
    → after_route (commander order visits n base) f d c answer
      ≡ err (router_failed no_runner_available)
    → AllOverloaded order visits c valid n.instance_overload_threshold
        (order (Cache.function_id_instances f c))
      × AllLoaded n.runner_overload_threshold (order (Cache.requests_per_runner c))
unavailable_after order visits n base f d c valid (ok routing) outcome e = cc
unavailable_after order visits n base f d c valid (err (prepare_instance g r)) outcome e =
    absurd (prepare_instance_on-available (commander order visits n base) g r d c e)
unavailable_after order visits n base f d c valid (err no_runner_available) outcome e = outcome
unavailable_after order visits n base f d c valid (err other) outcome e = absurd outcome

module _ {Key D : Type 0} (order : Map ℕ → Map ℕ) (visits : IsOrder order) (n : NaiveRouter)
    (base : Service Key D InMemoryCache) (wire_status : ServiceError → GrpcStatus) where
  abbrev pub AllBusy : ℕ → Map ℕ → Type 0
  AllBusy threshold queues = (key : String) (q : ℕ) → Has key q queues → threshold ≤ q

  overloaded :
      (f : String) (d : D) (c : InMemoryCache) (valid : IsValid c)
      (answer : Result RouteError Routing)
      → AllBusy n.instance_overload_threshold (order (Cache.function_id_instances f c))
      → AllBusy n.runner_overload_threshold (order (Cache.requests_per_runner c))
      → Outcome order visits c valid n f answer
      → after_route (commander order visits n base) f d c answer
        ≡ err (router_failed no_runner_available)
  overloaded f d c valid (ok routing) instances runners (q, low, placed) =
      let there =
        listed_of_placement c f routing.instance_id routing.runner_addr q valid.consistent placed in
      let busy =
        instances routing.instance_id q
          ((visits (Cache.function_id_instances f c) routing.instance_id q).1 there) in
      absurd (omega arith)
  overloaded f d c valid (err (prepare_instance g r)) instances runners (_, _, _, (q, it, low, _)) =
      let busy = runners r q it in absurd (omega arith)
  overloaded f d c valid (err no_runner_available) instances runners outcome = refl
  overloaded f d c valid (err other) instances runners outcome = absurd outcome

  -- `RouteFunction` of the commander, with the in-memory cache and the naive router, on a valid cache
  -- with no runner of an empty address. If every instance of the function is at or above the instance
  -- threshold and every runner at or above the runner threshold, the client gets the status
  -- unavailable, whatever the database holds and the runners would answer. Otherwise it gets that
  -- status only for an error that has it already.
  pub grpc_route_function-unavailable :
      (f : String) (d : D) (c : InMemoryCache) (valid : IsValid c)
      → lookup "" c.runner_requests ≡ none
      → (AllBusy n.instance_overload_threshold (order (Cache.function_id_instances f c))
          → AllBusy n.runner_overload_threshold (order (Cache.requests_per_runner c))
          → grpc_route_function (commander order visits n base) wire_status f d c ≡ err unavailable)
        × (grpc_route_function (commander order visits n base) wire_status f d c ≡ err unavailable
            → (AllOverloaded order visits c valid n.instance_overload_threshold
                  (order (Cache.function_id_instances f c))
                × AllLoaded n.runner_overload_threshold (order (Cache.requests_per_runner c)))
              ⊎ ((cause : ServiceError) × (wire_status cause ≡ unavailable)
                  × (route_function (commander order visits n base) f d c ≡ err cause)))
  unfolding grpc_route_function route_function
  grpc_route_function-unavailable f d c valid unnamed =
      let outcome = route-Outcome order visits c valid n f unnamed in
      (
        λ instances runners.
            ap (wrap (grpc_status wire_status))
              (overloaded f d c valid (route (in_memory order) n f c) instances runners outcome),
        λ e.
            let (cause, failing, status) = err_wrapped (grpc_status wire_status) _ e in
            elim (unavailable_cause wire_status cause status) [
              | inl own ↦ inl (
                  unavailable_after order visits n base f d c valid (route (in_memory order) n f c)
                    outcome (failing ∙ ap err own))
              | inr wrapped ↦ inr (cause, wrapped, failing)
            ],
      )
