-- ===== src/Commander/Handlers.antt =====
-- pkg/commander/grpc.go and pkg/commander/handlers.go: what the service's answers become for a client.
use servermore.Base.{List, String, none, some, ℕ}
use servermore.Base.Results.{Result, err, ok, wrap, ◌>>=◌}
use servermore.Commander.Db.{FunctionRow}
use servermore.Commander.Service.{
  ApiFunction, Service, ServiceError, create_function, function_by_id, function_exists,
  function_not_found, register_runner, route_function, router_failed,
}
use servermore.Routing.{Routing, no_runner_available}

pub data GrpcStatus : Type 0 where
  unavailable not_found unknown : GrpcStatus
  other_status : (code : ℕ) → GrpcStatus

-- `errors.Is(err, routing.ErrNoRunnerAvailable)` and the tests behind it. `wire_status` is the status
-- that google.golang.org/grpc finds in any other error: one that it wraps, as where the call of a runner
-- failed with one, else unknown.
abbrev pub grpc_status : (ServiceError → GrpcStatus) → ServiceError → GrpcStatus
grpc_status wire_status (router_failed no_runner_available) = unavailable
grpc_status wire_status function_not_found = not_found
grpc_status wire_status e = wire_status e

-- What the client of a commander's HTTP endpoint gets: the status, and the code of an error.
pub data HttpReply (A : Type 0) : Type 0 where
  success : (status : ℕ) → A → HttpReply A
  failure : (status : ℕ) → (code : String) → HttpReply A

-- How `parseCreateFunctionMultipartRequest` may fail.
pub data MultipartError : Type 0 where
  large_body : MultipartError
  bad_form : (message : String) → MultipartError

-- The file that a download streams, with its headers.
pub record Download (Key : Type 0) : Type 0 where
  pub function_id : Key
  pub function_path : List ℕ
  pub content : List ℕ

-- The status and the code of an error of the service, where an upload or a download ends with it.
abbrev pub upload_error : ServiceError → ℕ × String
upload_error function_exists = (409, "function.exists")
upload_error _ = (500, "internal.server.error")

abbrev pub download_error : ServiceError → ℕ × String
download_error function_not_found = (404, "function.not.found")
download_error _ = (500, "internal.server.error")

module _ {Key D S : Type 0} (svc : Service Key D S) (wire_status : ServiceError → GrpcStatus) where
  -- `commanderGrpcServer.RouteFunction`
  unfoldable pub grpc_route_function : String → D → S → Result GrpcStatus (Routing × S)
  grpc_route_function function_id d s =
      wrap (grpc_status wire_status) (route_function svc function_id d s)

  -- `commanderGrpcServer.RegisterRunner` answers with the row's id.
  unfoldable pub grpc_register_runner : String → D → Result GrpcStatus (ℕ × D)
  grpc_register_runner addr d =
      wrap wire_status (register_runner svc addr d) >>= λ (runn, d'). ok (runn.id, d')

module _ {Key D S : Type 0} (svc : Service Key D S) where
  abbrev pub after_upload :
      D → Result ServiceError (ApiFunction Key × D) → HttpReply (ApiFunction Key) × D
  after_upload d (ok (function, d')) = (success 201 function, d')
  after_upload d (err e) = (failure (upload_error e).0 (upload_error e).1, d)

  -- `CommanderHTTPServer.CreateFunction`, from the form's name and the reading of its file.
  unfoldable pub http_create_function :
      Result MultipartError (List ℕ × Result String (List ℕ)) → D → HttpReply (ApiFunction Key) × D
  http_create_function (err large_body) d = (failure 400 "function.too.large", d)
  http_create_function (err (bad_form message)) d = (failure 400 "invalid.request", d)
  http_create_function (ok (func_name, body)) d =
      after_upload d (create_function svc func_name body d)

  abbrev pub after_open : FunctionRow Key → Result String (List ℕ) → HttpReply (Download Key)
  after_open row (err e) = failure 500 "internal.server.error"
  after_open row (ok content) =
      success 200 (record { function_id = row.id; function_path = row.path; content = content })

  abbrev pub after_find :
      (List ℕ → Result String (List ℕ))
      → Result ServiceError (FunctionRow Key)
      → HttpReply (Download Key)
  after_find open_file (err e) = failure (download_error e).0 (download_error e).1
  after_find open_file (ok row) = after_open row (open_file row.path)

  -- `DownloadFunctionBinary`; `open_file` reads the file at a path. A failure while streaming comes
  -- behind the status, and is left out.
  unfoldable pub http_download_function :
      (List ℕ → Result String (List ℕ)) → String → D → HttpReply (Download Key)
  http_download_function open_file id d = elim (svc.parse_int id) [
    | none ↦ failure 400 "invalid.path.param"
    | some func_id ↦ after_find open_file (function_by_id svc func_id d)
  ]
