-- ===== src/Serving/Tests.antt =====
-- A request to the gateway with a commander behind it, and its theorem at that request.
use servermore.Base.{List, String, [], refl, str_distinct, ℕ, ◌∷◌, ◌≡◌}
use servermore.Base.Maps.{insert, lookup}
use servermore.Base.Results.{Result, ok}
use servermore.Cache.{requests_per_runner, set_instance}
use servermore.Cache.Tests.{cache_model, two_runners}
use servermore.Commander.Handlers.{GrpcStatus, grpc_route_function, unknown}
use servermore.Commander.RouteTests.{two_runners-IsRoutable}
use servermore.Commander.Tests.{commander_model, small_service, uploaded}
use servermore.Gateway.{
  InvokeRequest, Request, Response, flatten_headers, forwarded, forwarded_path,
  process_function_request, runner_conn, set_headers, write_response,
}
use servermore.Routing.{new_naive_router, pick_least_loaded_runner, route}
use servermore.Routing.Tests.{stored, stored-IsOrder}
use servermore.Serving.{serve_function}
use servermore.Serving.Served.{HasText, IsRound, serve_function-IsRound}

abbrev function_text : List ℕ → String
function_text [] = ""
function_text (b ∷ rest) = "8"

abbrev dial_4 : String → Result String ℕ
dial_4 addr = ok 4

abbrev answer_path : ℕ → InvokeRequest → Result String Response
answer_path conn request =
    ok (record { status = 200; headers = request.headers; body = request.path })

abbrev status_text : GrpcStatus → String
status_text status = "rpc error"

-- `POST /8/x`
abbrev post_8 : Request
post_8 = record {
  method = "POST";
  path = 47 ∷ 56 ∷ 47 ∷ 120 ∷ [];
  headers = [];
  body = ok (1 ∷ []);
}

served_8 :
    serve_function stored stored-IsOrder
      (new_naive_router 3 10)
      small_service
      (λ e. unknown)
      function_text
      status_text
      dial_4
      answer_path
      (λ name. name)
      (56 ∷ [])
      post_8
      []
      []
      uploaded
      two_runners
    ≡ (
      (forwarded (record { status = 200; headers = []; body = 47 ∷ 120 ∷ [] }), ("b:1", 4) ∷ []),
      set_instance "8" "i9" "b:1" 0 two_runners,
    )
unfolding serve_function process_function_request write_response set_headers runner_conn lookup
    insert flatten_headers forwarded_path grpc_route_function commander_model cache_model route
    stored requests_per_runner pick_least_loaded_runner
served_8 = refl

function_text-HasText :
    HasText stored stored-IsOrder
      (new_naive_router 3 10)
      small_service
      (λ e. unknown)
      function_text
      status_text
      dial_4
      answer_path
      (λ name. name)
function_text-HasText b rest = str_distinct "8" "" refl

serve_function-IsRound_example :
    IsRound stored stored-IsOrder
      (new_naive_router 3 10)
      small_service
      (λ e. unknown)
      function_text
      status_text
      dial_4
      answer_path
      (λ name. name)
      (56 ∷ [])
      post_8
      []
      uploaded
      two_runners
      (serve_function stored stored-IsOrder
        (new_naive_router 3 10)
        small_service
        (λ e. unknown)
        function_text
        status_text
        dial_4
        answer_path
        (λ name. name)
        (56 ∷ [])
        post_8
        []
        []
        uploaded
        two_runners)
serve_function-IsRound_example =
    serve_function-IsRound stored stored-IsOrder (new_naive_router 3 10) small_service
      (λ e. unknown) function_text status_text dial_4 answer_path (λ name. name) (56 ∷ []) post_8 []
      [] uploaded two_runners function_text-HasText two_runners-IsRoutable (λ a c held. held)
