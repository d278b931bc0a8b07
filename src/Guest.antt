-- ===== src/Guest.antt =====
-- pkg/guest/entrypoint.go: `guestServer`, and how a worker of pkg/runner/grpc.go calls it. The
-- function's handler, which users write, is a parameter; a nil pointer is none. The
-- metadata of a call is left out.
pub mod Delivered
mod Tests
use servermore.Base.{List, Option, String, none, some, ℕ}
use servermore.Base.Maps.{Map}
use servermore.Base.Results.{Result, err, ok, wrap, ◌>>=◌}
use servermore.Gateway.{Clients, InvokeRequest, Response}
use servermore.Routing.{Routing}

pub record InvocationRequest : Type 0 where
  pub method : String
  pub path : List ℕ
  pub headers : Map String
  pub body : List ℕ

pub record InvocationResponse : Type 0 where
  pub status_code : ℕ
  pub headers : Map String
  pub body : List ℕ

-- The status that a guest sends.
pub data GuestStatus : Type 0 where
  invalid_argument internal : (message : String) → GuestStatus

-- `FunctionHandler`
abbrev pub FunctionHandler : Type 0
FunctionHandler = InvocationRequest → Result String (Option InvocationResponse)

abbrev pub nil_response_error_msg : String
nil_response_error_msg = "response was nil"

abbrev pub handler_answer :
    Result String (Option InvocationResponse) → Result GuestStatus InvocationResponse
handler_answer (err message) = err (internal message)
handler_answer (ok none) = err (internal nil_response_error_msg)
handler_answer (ok (some resp)) = ok resp

-- `InvokeFunction`
unfoldable pub invoke_function :
    FunctionHandler → Option InvocationRequest → Result GuestStatus InvocationResponse
invoke_function f none = err (invalid_argument "request is required")
invoke_function f (some req) = handler_answer (f req)

-- The request that `instanceWorker` makes of the one that the runner got; `InvokeFunctionInstance`
-- keeps all but the instance's id.
abbrev pub guest_request : InvokeRequest → InvocationRequest
guest_request req = record {
  method = req.method;
  path = req.path;
  headers = req.headers;
  body = req.body;
}

-- What the worker makes of the guest's answer.
abbrev pub invoke_response : InvocationResponse → Response
invoke_response resp = record {
  status = resp.status_code;
  headers = resp.headers;
  body = resp.body;
}

-- A worker's call of its instance; `message` is the text of the error that the client makes of a
-- status.
unfoldable pub invoke_instance :
    (GuestStatus → String) → FunctionHandler → InvokeRequest → Result String Response
invoke_instance message f req =
    wrap message (invoke_function f (some (guest_request req))) >>= λ resp.
    ok (invoke_response resp)

-- Runners whose instances are guests: the handler that a connection reaches by an instance's id.
abbrev pub guests :
    {Conn : Type 0}
    → (List ℕ → Result String Routing)
    → (String → Result String Conn)
    → (GuestStatus → String)
    → (Conn → String → FunctionHandler)
    → (String → String)
    → Clients Conn
guests route dial message handler_at header_key = record {
  route_function = route;
  dial = dial;
  invoke = λ conn req. invoke_instance message (handler_at conn req.instance_id) req;
  header_key = header_key;
}
