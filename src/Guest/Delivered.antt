-- ===== src/Guest/Delivered.antt =====
-- What becomes of a request that the gateway forwards, up to the function's handler and back.
use servermore.Base.{List, Option, String, ap, inl, inr, none, some, subst, sym, ℕ, ◌≡◌, ◌⊎◌}
use servermore.Base.Maps.{Map, lookup}
use servermore.Base.Results.{Result, err, ok, ok_or, ok_steps, ok_wrapped, wrap}
use servermore.Gateway.{
  InvokeRequest, Reply, Request, Response, flatten_headers, forwarded_path, invoke_request,
  process_function_request,
}
use servermore.Gateway.Requests.{
  IsForwarded, IsKept, IsRefused, IsWritten, process_function_request-IsAnswered,
}
use servermore.Guest.{
  FunctionHandler, GuestStatus, InvocationResponse, guest_request, guests, handler_answer,
  invoke_function, invoke_instance, invoke_response,
}
use servermore.Routing.{Routing}

handler_answered :
    (answer : Result String (Option InvocationResponse)) (g : InvocationResponse)
    → handler_answer answer ≡ ok g
    → answer ≡ ok (some g)
handler_answered (err message) g e = cc
handler_answered (ok none) g e = cc
handler_answered (ok (some resp)) g e = ap (λ a. ok (some (ok_or resp a))) e

-- An instance that answers is one whose handler did.
invoke_instance-handler :
    (message : GuestStatus → String) (f : FunctionHandler) (req : InvokeRequest) (resp : Response)
    → invoke_instance message f req ≡ ok resp
    → (g : InvocationResponse) × (f (guest_request req) ≡ ok (some g)) × (invoke_response g ≡ resp)
unfolding invoke_instance invoke_function
invoke_instance-handler message f req resp e =
    let (g, wrapped, same) = ok_steps (wrap message (handler_answer (f (guest_request req)))) _ e in
    (
      g,
      handler_answered (f (guest_request req)) g
          (ok_wrapped message (handler_answer (f (guest_request req))) wrapped),
      ap (ok_or (invoke_response g)) same,
    )

module _ {Conn : Type 0} (route : List ℕ → Result String Routing)
    (dial : String → Result String Conn) (message : GuestStatus → String)
    (handler_at : Conn → String → FunctionHandler) (header_key : String → String) where
  abbrev pub IsDelivered : List ℕ → Request → Map Conn → Reply → Type 0
  IsDelivered function_id r runners' reply =
      IsRefused (guests route dial message handler_at header_key) reply
      ⊎ ((routing : Routing) × (conn : Conn) × (body : List ℕ) × (g : InvocationResponse) × (route
              function_id
            ≡ ok routing)
          × (lookup routing.runner_addr runners' ≡ some conn)
          × (r.body ≡ ok body)
          × (handler_at conn routing.instance_id (record {
            method = r.method;
            path = forwarded_path r.path function_id;
            headers = flatten_headers r.headers;
            body = body;
          })
              ≡ ok (some g))
          × IsWritten (guests route dial message handler_at header_key)
              (record { status = g.status_code; headers = g.headers; body = g.body }) reply)

  reply-IsDelivered :
      (function_id : List ℕ) (r : Request) (runners' : Map Conn) (reply : Reply)
      → IsRefused (guests route dial message handler_at header_key) reply
        ⊎ IsForwarded (guests route dial message handler_at header_key) function_id r runners' reply
      → IsDelivered function_id r runners' reply
  reply-IsDelivered function_id r runners' reply (inl one_of) = inl one_of
  reply-IsDelivered function_id r runners' reply
        (inr (routing, conn, body, resp, found, there, read, e, written)) =
      let (g, answer, same) =
        invoke_instance-handler message (handler_at conn routing.instance_id)
          (invoke_request (guests route dial message handler_at header_key) function_id r routing
            body)
          resp e in
      inr (
        routing,
        conn,
        body,
        g,
        found,
        there,
        read,
        answer,
        subst (λ x. IsWritten (guests route dial message handler_at header_key) x reply) (sym same)
            written,
      )

  -- With guests behind the runners a request is refused with status 400, 413 or 500, or the function's
  -- own handler answered it: the one of the instance that the commander named, reached over the
  -- connection kept for its runner, and called with the request's method, the forwarded path, the first
  -- values of the headers and the whole body. Of that answer the gateway writes the status and the body
  -- as they are, with each header under the spelling of its name and no other header, or it panics
  -- where the status is below 100 or above 999.
  pub process_function_request-IsDelivered :
      (function_id : List ℕ) (r : Request) (first runners : Map Conn)
      → IsKept (guests route dial message handler_at header_key) first runners
      → IsDelivered function_id r
          (process_function_request
            (guests route dial message handler_at header_key)
            function_id
            r
            first
            runners).1
          (process_function_request
            (guests route dial message handler_at header_key)
            function_id
            r
            first
            runners).0
  process_function_request-IsDelivered function_id r first runners kept =
      reply-IsDelivered function_id r
        (process_function_request (guests route dial message handler_at header_key) function_id r
          first runners).1
        (process_function_request (guests route dial message handler_at header_key) function_id r
          first runners).0
        (process_function_request-IsAnswered (guests route dial message handler_at header_key)
          function_id r first runners kept).0
