-- ===== src/Guest/Tests.antt =====
-- A request that reaches a handler, and its theorem there.
use servermore.Base.{List, String, [], if◌then◌else◌, refl, slash, some, str_eq, ℕ, ◌∷◌, ◌≡◌}
use servermore.Base.Maps.{insert, lookup}
use servermore.Base.Results.{Result, err, ok}
use servermore.Gateway.{
  Clients, Request, flatten_headers, forwarded, forwarded_path, process_function_request, refused,
  runner_conn, set_headers, write_response,
}
use servermore.Guest.{
  FunctionHandler, GuestStatus, guests, internal, invalid_argument, invoke_function,
  invoke_instance,
}
use servermore.Guest.Delivered.{IsDelivered, process_function_request-IsDelivered}
use servermore.Routing.{Routing}

-- It answers with the body of the request, and fails for a `GET`.
abbrev echo : FunctionHandler
echo req =
    if str_eq req.method "GET"
    then err "no body"
    else ok (some (record { status_code = 202; headers = req.headers; body = req.body }))

abbrev status_message : GuestStatus → String
status_message (invalid_argument message) = message
status_message (internal message) = message

abbrev route_9 : List ℕ → Result String Routing
route_9 function_id = ok (record { runner_addr = "a:1"; instance_id = "i1" })

abbrev echo_runners : Clients ℕ
echo_runners =
    guests route_9 (λ addr. ok 4) status_message (λ conn instance_id. echo) (λ name. name)

-- `POST /9` and `GET /9`
abbrev post_9 : Request
post_9 = record { method = "POST"; path = slash ∷ 57 ∷ []; headers = []; body = ok (1 ∷ 2 ∷ []) }

abbrev get_9 : Request
get_9 = record post_9 { method = "GET" }

echoed :
    process_function_request echo_runners (57 ∷ []) post_9 [] []
    ≡ (forwarded (record { status = 202; headers = []; body = 1 ∷ 2 ∷ [] }), ("a:1", 4) ∷ [])
unfolding process_function_request runner_conn lookup insert flatten_headers forwarded_path
    invoke_instance invoke_function write_response set_headers
echoed = refl

failed_get :
    process_function_request echo_runners (57 ∷ []) get_9 [] []
    ≡ (refused 500 "internal.server.error", ("a:1", 4) ∷ [])
unfolding process_function_request runner_conn lookup insert flatten_headers forwarded_path
    invoke_instance invoke_function write_response set_headers
failed_get = refl

process_function_request-IsDelivered_example :
    IsDelivered route_9
      (λ addr. ok 4)
      status_message
      (λ conn instance_id. echo)
      (λ name. name)
      (57 ∷ [])
      post_9
      (process_function_request echo_runners (57 ∷ []) post_9 [] []).1
      (process_function_request echo_runners (57 ∷ []) post_9 [] []).0
process_function_request-IsDelivered_example =
    process_function_request-IsDelivered route_9 (λ addr. ok 4) status_message
      (λ conn instance_id. echo) (λ name. name) (57 ∷ []) post_9 [] [] (λ a c held. held)
