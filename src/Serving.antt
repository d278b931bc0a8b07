-- ===== src/Serving.antt =====
-- The gateway before the commander: pkg/gateway/handler.go with pkg/commander/grpc.go behind its
-- client. The gRPC between them carries a `Routing` or a status.
pub mod Served
mod Tests
use servermore.Base.{List, String, [], ℕ, ◌∷◌}
use servermore.Base.Maps.{Map}
use servermore.Base.Results.{Result, err, ok, wrap, ◌>>=◌}
use servermore.Cache.{InMemoryCache}
use servermore.Cache.Interface.{IsOrder}
use servermore.Commander.Handlers.{GrpcStatus, grpc_route_function}
use servermore.Commander.Routes.{commander}
use servermore.Commander.Service.{Service, ServiceError, route_function}
use servermore.Gateway.{Clients, InvokeRequest, Reply, Request, Response, process_function_request}
use servermore.Routing.{NaiveRouter, Routing}

module _ {Key D Conn : Type 0} (order : Map ℕ → Map ℕ) (visits : IsOrder order) (n : NaiveRouter)
    (base : Service Key D InMemoryCache)
    -- The status of an error that has none of its own, the text of a function id, the error that the client makes of a status, and the gateway's calls
    -- of a runner and spelling of a header.
    (wire_status : ServiceError → GrpcStatus) (text : List ℕ → String)
    (message : GrpcStatus → String) (dial : String → Result String Conn)
    (invoke : Conn → InvokeRequest → Result String Response) (header_key : String → String) where
  -- The commander's answer to `RouteFunction`, with the cache that it leaves.
  abbrev pub routing_of : List ℕ → D → InMemoryCache → Result GrpcStatus (Routing × InMemoryCache)
  routing_of function_id d c =
      grpc_route_function (commander order visits n base) wire_status (text function_id) d c

  abbrev pub clients_of : D → InMemoryCache → Clients Conn
  clients_of d c = record {
    route_function =
        λ function_id. wrap message (routing_of function_id d c) >>= λ (routing, c'). ok routing;
    dial = dial;
    invoke = invoke;
    header_key = header_key;
  }

  -- A call that fails leaves the cache as it is.
  abbrev pub cache_after :
      InMemoryCache → Result GrpcStatus (Routing × InMemoryCache) → InMemoryCache
  cache_after c (ok (routing, c')) = c'
  cache_after c (err status) = c

  -- What a request leaves of the commander's cache; one with no function id does not reach it.
  abbrev pub cache_left : List ℕ → D → InMemoryCache → InMemoryCache
  cache_left [] d c = c
  cache_left (b ∷ rest) d c = cache_after c (routing_of (b ∷ rest) d c)

  -- One request: the reply, the gateway's connections and the commander's cache.
  unfoldable pub serve_function :
      List ℕ
      → Request
      → Map Conn
      → Map Conn
      → D
      → InMemoryCache
      → (Reply × Map Conn) × InMemoryCache
  serve_function function_id r first runners d c = (
    process_function_request (clients_of d c) function_id r first runners,
    cache_left function_id d c,
  )
