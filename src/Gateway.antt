-- ===== src/Gateway.antt =====
-- pkg/gateway/handler.go: `gatewayHandler`. Paths and ids are lists of bytes. Calls to the commander
-- and to runners are parameters. Durations and the metadata kept for logging are left out.
pub mod Paths
pub mod Closing
pub mod Requests
mod Tests
use servermore.Base.{
  Bool, List, Option, String, [], false, if◌then◌else◌, leb, none, slash, some, true, ℕ, ◌&&◌, ◌==◌,
  ◌∷◌,
}
use servermore.Base.Maps.{Map, delete, get_or, insert, lookup}
use servermore.Base.Results.{Result, err, ok, ◌>>=◌}
use servermore.Routing.{Routing}

-- `strings.TrimPrefix`
unfoldable pub after_prefix : List ℕ → List ℕ → Option (List ℕ)
after_prefix [] text = some text
after_prefix (a ∷ prefix) [] = none
after_prefix (a ∷ prefix) (b ∷ text) =
    let later = after_prefix prefix text in if a == b then later else none

abbrev pub trim_prefix : List ℕ → List ℕ → List ℕ
trim_prefix text prefix = get_or text (after_prefix prefix text)

abbrev pub or_root : List ℕ → List ℕ
or_root [] = slash ∷ []
or_root (b ∷ text) = b ∷ text

-- `forwardedPath`; its assertion is the test that the handler makes first.
unfoldable pub forwarded_path : List ℕ → List ℕ → List ℕ
unfolding after_prefix
forwarded_path path function_id = or_root (trim_prefix path (slash ∷ function_id))

-- `flattenHeaders`. The names are distinct, so that the order of the loop is the same to it.
unfoldable pub flatten_headers : Map (List String) → Map String
flatten_headers [] = []
flatten_headers ((k, []) ∷ h) = flatten_headers h
flatten_headers ((k, v ∷ vs) ∷ h) = insert k v (flatten_headers h)

-- What reading the body, under `http.MaxBytesReader`, may answer.
pub data BodyError : Type 0 where
  too_large : BodyError
  read_error : (message : String) → BodyError

pub record Request : Type 0 where
  pub method : String
  pub path : List ℕ
  pub headers : Map (List String)
  pub body : Result BodyError (List ℕ)

pub record InvokeRequest : Type 0 where
  pub instance_id : String
  pub method : String
  pub path : List ℕ
  pub headers : Map String
  pub body : List ℕ

-- What an instance answers, and what the handler hands to its `http.ResponseWriter`. Of the statuses,
-- which are int32, those below 0 are left out; they panic like those below 100.
pub record Response : Type 0 where
  pub status : ℕ
  pub headers : Map String
  pub body : List ℕ

-- `forwarded` has the headers that were set, the status and the body that was written; of a body that
-- the status does not allow, net/http sends none. `panicked` is the panic of `WriteHeader`, which the
-- recovering middleware answers with 500. An error's body is its code.
pub data Reply : Type 0 where
  forwarded : Response → Reply
  refused : (status : ℕ) → (code : String) → Reply
  panicked : (status : ℕ) → Reply

abbrev pub internal_server_error : Reply
internal_server_error = refused 500 "internal.server.error"

-- `RouteFunction` of the commander's client; the dialling of a runner; the call of a connected runner;
-- and the spelling of a header's name under which `Header.Set` stores it.
pub record Clients (Conn : Type 0) : Type 0 where
  pub route_function : List ℕ → Result String Routing
  pub dial : String → Result String Conn
  pub invoke : Conn → InvokeRequest → Result String Response
  pub header_key : String → String

module _ {Conn : Type 0} (clients : Clients Conn) where
  abbrev pub keep : String → Map Conn → Conn → Conn × Bool × Map Conn
  keep addr runners conn = (conn, false, insert addr conn runners)

  -- The second check, with the mutex locked for writing.
  abbrev pub locked_conn : String → Map Conn → Option Conn → Result String (Conn × Bool × Map Conn)
  locked_conn addr runners (some conn) = ok (conn, true, runners)
  locked_conn addr runners none = clients.dial addr >>= λ conn. ok (keep addr runners conn)

  abbrev pub checked_conn : String → Map Conn → Option Conn → Result String (Conn × Bool × Map Conn)
  checked_conn addr runners (some conn) = ok (conn, true, runners)
  checked_conn addr runners none = locked_conn addr runners (lookup addr runners)

  -- `runnerConn`: the connections at its first check, and those at its second. Others may have added
  -- connections in between.
  unfoldable pub runner_conn : String → Map Conn → Map Conn → Result String (Conn × Bool × Map Conn)
  runner_conn addr first runners = checked_conn addr runners (lookup addr first)

  abbrev pub body_refused : BodyError → Reply
  body_refused too_large = refused 413 "request.too.large"
  body_refused (read_error message) = internal_server_error

  abbrev pub invoke_request : List ℕ → Request → Routing → List ℕ → InvokeRequest
  invoke_request function_id r routing body = record {
    instance_id = routing.instance_id;
    method = r.method;
    path = forwarded_path r.path function_id;
    headers = flatten_headers r.headers;
    body = body;
  }

  -- The loop that sets the headers, in the order in which it visits them.
  unfoldable pub set_headers : Map String → Map String → Map String
  unfolding insert
  set_headers [] headers = headers
  set_headers ((k, v) ∷ later) headers = set_headers later (insert (clients.header_key k) v headers)

  -- The statuses at which `WriteHeader` does not panic.
  abbrev pub is_status : ℕ → Bool
  is_status status = leb 100 status && leb status 999

  unfoldable pub write_response : Response → Reply
  unfolding set_headers
  write_response resp =
      if is_status resp.status
      then forwarded (record resp { headers = set_headers resp.headers [] })
      else panicked resp.status

  abbrev pub answer_of : Result String Response → Reply
  answer_of (ok resp) = write_response resp
  answer_of (err e) = internal_server_error

  abbrev pub after_body : List ℕ → Request → Routing → Conn → Result BodyError (List ℕ) → Reply
  after_body function_id r routing conn (err e) = body_refused e
  after_body function_id r routing conn (ok body) =
      answer_of (clients.invoke conn (invoke_request function_id r routing body))

  abbrev pub after_conn :
      List ℕ
      → Request
      → Routing
      → Map Conn
      → Result String (Conn × Bool × Map Conn)
      → Reply × Map Conn
  after_conn function_id r routing runners (err e) = (internal_server_error, runners)
  after_conn function_id r routing runners (ok (conn, reused, runners')) =
      (after_body function_id r routing conn r.body, runners')

  abbrev pub after_routing :
      List ℕ → Request → Map Conn → Map Conn → Result String Routing → Reply × Map Conn
  after_routing function_id r first runners (err e) = (internal_server_error, runners)
  after_routing function_id r first runners (ok routing) =
      after_conn function_id r routing runners (runner_conn routing.runner_addr first runners)

  -- `processFunctionRequest`, from the path parameter and the request.
  unfoldable pub process_function_request :
      List ℕ → Request → Map Conn → Map Conn → Reply × Map Conn
  process_function_request [] r first runners = (refused 400 "invalid.request", runners)
  process_function_request (b ∷ rest) r first runners =
      after_routing (b ∷ rest) r first runners (clients.route_function (b ∷ rest))

-- The loop of `Close` over the entries of the map: the connections that it closes, and the map left.
unfoldable pub close_entries : {Conn : Type 0} → Map Conn → Map Conn → List Conn × Map Conn
unfolding delete
close_entries [] runners = ([], runners)
close_entries ((addr, conn) ∷ entries) runners =
    let (closed, left) = close_entries entries (delete addr runners) in (conn ∷ closed, left)

-- `Close`
abbrev pub close_runners : {Conn : Type 0} → Map Conn → List Conn × Map Conn
close_runners runners = close_entries runners runners
