-- ===== src/Serving/Served.antt =====
-- What a request to the gateway gets and leaves, with the commander that routes it.
use servermore.Base.{List, String, [], ap, inl, inr, refl, some, subst, ℕ, ◌∷◌, ◌≡◌, ◌≢◌, ◌⊎◌}
use servermore.Base.Maps.{Map, lookup}
use servermore.Base.Results.{Result, err, ok, ok_or, ok_wrapped, wrap, ◌>>=◌}
use servermore.Cache.{InMemoryCache}
use servermore.Cache.Interface.{IsOrder}
use servermore.Commander.Handlers.{GrpcStatus, grpc_route_function, grpc_status}
use servermore.Commander.Routes.{IsRoutable, IsRouted, commander, route_function-IsRouted}
use servermore.Commander.Service.{Service, ServiceError, route_function}
use servermore.Gateway.{
  Clients, InvokeRequest, Reply, Request, Response, invoke_request, process_function_request,
}
use servermore.Gateway.Requests.{
  IsForwarded, IsKept, IsRefused, IsWritten, process_function_request-IsAnswered,
}
use servermore.Routing.{NaiveRouter, Routing}
use servermore.Serving.{cache_after, cache_left, clients_of, routing_of, serve_function}

module _ {Key D Conn : Type 0} (order : Map ℕ → Map ℕ) (visits : IsOrder order) (n : NaiveRouter)
    (base : Service Key D InMemoryCache) (wire_status : ServiceError → GrpcStatus)
    (text : List ℕ → String) (message : GrpcStatus → String) (dial : String → Result String Conn)
    (invoke : Conn → InvokeRequest → Result String Response) (header_key : String → String) where
  abbrev pub gateway : D → InMemoryCache → Clients Conn
  gateway = clients_of order visits n base wire_status text message dial invoke header_key

  -- The reply, in the caches before and after: an error of the gateway, or what the handler writes of
  -- the answer of an instance that the commander's cache places on the runner for this function.
  abbrev pub IsServed :
      List ℕ → Request → D → InMemoryCache → Map Conn → InMemoryCache → Reply → Type 0
  IsServed function_id r d c runners' c' reply =
      IsRefused (gateway d c) reply
      ⊎ ((routing : Routing) × (conn : Conn) × (body : List ℕ) × (resp : Response) × IsRouted order
            visits n base (text function_id) routing c'
          × (lookup routing.runner_addr runners' ≡ some conn)
          × (r.body ≡ ok body)
          × (invoke conn (invoke_request (gateway d c) function_id r routing body) ≡ ok resp)
          × IsWritten (gateway d c) resp reply)

  -- A function id that is not empty has a text that is not.
  abbrev pub HasText : Type 0
  HasText = (b : ℕ) (rest : List ℕ) → text (b ∷ rest) ≢ ""

  abbrev pub kept_cache :
      InMemoryCache → Result GrpcStatus (Routing × InMemoryCache) → InMemoryCache
  kept_cache = cache_after order visits n base wire_status text message dial invoke header_key

  IsRouted-answer :
      (f : String) (d : D) (c c' : InMemoryCache) (found : Routing)
      → f ≢ ""
      → IsRoutable order visits n base c
      → grpc_route_function (commander order visits n base) wire_status f d c ≡ ok (found, c')
      → IsRoutable order visits n base c' × IsRouted order visits n base f found c'
  unfolding grpc_route_function
  IsRouted-answer f d c c' found named routable sent_back =
      route_function-IsRouted order visits n base f d c c' found named routable (
        ok_wrapped (grpc_status wire_status) (route_function (commander order visits n base) f d c)
          sent_back)

  kept_cache-IsRoutable :
      (f : String) (d : D) (c : InMemoryCache)
      (answer : Result GrpcStatus (Routing × InMemoryCache))
      → f ≢ ""
      → IsRoutable order visits n base c
      → grpc_route_function (commander order visits n base) wire_status f d c ≡ answer
      → IsRoutable order visits n base (kept_cache c answer)
  kept_cache-IsRoutable f d c (err status) named routable sent_back = routable
  kept_cache-IsRoutable f d c (ok (found, c')) named routable sent_back =
      (IsRouted-answer f d c c' found named routable sent_back).0

  kept_cache-IsRouted :
      (f : String) (d : D) (c : InMemoryCache) (routing : Routing)
      (answer : Result GrpcStatus (Routing × InMemoryCache))
      → f ≢ ""
      → IsRoutable order visits n base c
      → grpc_route_function (commander order visits n base) wire_status f d c ≡ answer
      → (wrap message answer >>= λ p. ok p.0) ≡ ok routing
      → IsRouted order visits n base f routing (kept_cache c answer)
  kept_cache-IsRouted f d c routing (err status) named routable sent_back e = cc
  kept_cache-IsRouted f d c routing (ok (found, c')) named routable sent_back e =
      subst (λ p. IsRouted order visits n base f p c') (ap (ok_or found) e)
        (IsRouted-answer f d c c' found named routable sent_back).1

  -- The reply, the connections and the cache that a request leaves.
  abbrev pub IsRound :
      List ℕ → Request → Map Conn → D → InMemoryCache → (Reply × Map Conn) × InMemoryCache → Type 0
  IsRound function_id r runners d c ((reply, runners'), c') =
      IsServed function_id r d c runners' c' reply
      × IsKept (gateway d c) runners runners'
      × IsRoutable order visits n base c'

  named_round :
      (b : ℕ) (rest : List ℕ) (r : Request) (d : D) (c : InMemoryCache) (runners' : Map Conn)
      (reply : Reply)
      → HasText
      → IsRoutable order visits n base c
      → IsRefused (gateway d c) reply ⊎ IsForwarded (gateway d c) (b ∷ rest) r runners' reply
      → IsServed
          (b ∷ rest)
          r
          d
          c
          runners'
          (cache_left order visits n base wire_status text message dial invoke header_key
            (b ∷ rest)
            d
            c)
          reply
  named_round b rest r d c runners' reply named routable (inl one_of) = inl one_of
  named_round b rest r d c runners' reply named routable
        (inr (routing, conn, body, resp, found, there, read, invoked, written)) =
      inr (
        routing,
        conn,
        body,
        resp,
        kept_cache-IsRouted (text (b ∷ rest)) d c routing
            (routing_of order visits n base wire_status text message dial invoke header_key
              (b ∷ rest) d c)
            (named b rest) routable refl found,
        there,
        read,
        invoked,
        written,
      )

  -- A request with the commander behind the gateway, from a valid cache with no runner of an empty
  -- address, where the text of a function id that is not empty is not empty. The request is refused
  -- with status 400, 413 or 500, or an instance answered it over the connection kept for its runner,
  -- and the cache that the commander is left with places that instance on that runner for this function,
  -- with a queue below the instance threshold or empty. Of that answer the handler writes the status and
  -- the body as they are, with each header under the spelling of its name, or it panics where the status
  -- is below 100 or above 999. Every connection that was kept stays, and that cache is valid again, with
  -- no runner of an empty address.
  pub serve_function-IsRound :
      (function_id : List ℕ) (r : Request) (first runners : Map Conn) (d : D) (c : InMemoryCache)
      → HasText
      → IsRoutable order visits n base c
      → IsKept (gateway d c) first runners
      → IsRound function_id r runners d c (
          serve_function order visits n base wire_status text message dial invoke header_key
            function_id r first runners d c)
  unfolding serve_function process_function_request
  serve_function-IsRound [] r first runners d c named routable kept =
      (inl (inl refl), (λ a conn held. held), routable)
  serve_function-IsRound (b ∷ rest) r first runners d c named routable kept =
      let (sent_back, kept') =
        process_function_request-IsAnswered (gateway d c) (b ∷ rest) r first runners kept in
      (
        named_round b rest r d c
            (process_function_request (gateway d c) (b ∷ rest) r first runners).1
            (process_function_request (gateway d c) (b ∷ rest) r first runners).0 named routable
            sent_back,
        kept',
        kept_cache-IsRoutable (text (b ∷ rest)) d c
            (routing_of order visits n base wire_status text message dial invoke header_key
              (b ∷ rest) d c)
            (named b rest) routable refl,
      )
