-- ===== src/Server/Meta.antt =====
-- pkg/server/grpc_context.go and pkg/server/http_context.go: what the handlers tell about a request, and
-- the attributes that logs and traces show of it. Sizes, counts and ids are natural numbers, and a
-- duration is its nanoseconds; `duration_string` is `Duration.String`.
use servermore.Base.{Bool, List, String, [], ℕ, ◌∷◌}

-- An `any` of the log fields.
pub data AnyValue : Type 0 where
  any_string : String → AnyValue
  any_bool : Bool → AnyValue
  any_int : ℕ → AnyValue

-- `attribute.KeyValue`, and `slog.Attr`.
abbrev pub Attribute : Type 0
Attribute = String × AnyValue

pub record DownloadMeta : Type 0 where
  pub function_id : String
  pub downloaded : Bool
  pub download_path : String
  pub stored_path : String
  pub bytes_written : ℕ
  pub download_took : ℕ
  pub reused_from_fs : Bool
  pub reused_in_flight : Bool
  pub source_path : String
  pub source_filename : String

pub record InstanceStartMeta : Type 0 where
  pub function_path : String
  pub instance_id : String
  pub runtime_type : String
  pub instance_addr : String
  pub start_took : ℕ
  pub reused_assigned : Bool
  pub start_retries : ℕ
  pub heartbeat_retries : ℕ
  pub heartbeat_took : ℕ

pub record InvokeMeta : Type 0 where
  pub instance_id : String
  pub function_path : String
  pub method : String
  pub path : String
  pub request_body_bytes : ℕ
  pub headers_count : ℕ
  pub worker_already_running : Bool
  pub started_worker : Bool
  pub queue_depth_at_enqueue : ℕ
  pub invocation_took : ℕ
  pub queue_wait_took : ℕ
  pub guest_invoke_took : ℕ
  pub response_status_code : ℕ
  pub response_body_bytes : ℕ

pub record GuestInvokeMeta : Type 0 where
  pub method : String
  pub path : String
  pub request_body_bytes : ℕ
  pub headers_count : ℕ
  pub invocation_took : ℕ
  pub response_status_code : ℕ
  pub response_body_bytes : ℕ

pub record RouteFunctionMeta : Type 0 where
  pub function_id : String
  pub runner_addr : String
  pub instance_id : String
  pub route_took : ℕ
  pub cache_hit : Bool
  pub prepared_instance : Bool
  pub prepare_took : ℕ

pub record RegisterRunnerMeta : Type 0 where
  pub runner_addr : String
  pub runner_id : ℕ
  pub preexisting_runner : Bool
  pub runner_heartbeat_ok : Bool
  pub registration_took : ℕ
  pub heartbeat_took : ℕ
  pub persist_took : ℕ

pub record CreateFunctionMeta : Type 0 where
  pub function_name : String
  pub function_id : ℕ
  pub function_bytes : ℕ
  pub function_hash : String
  pub function_path : String
  pub function_already_exists : Bool

pub record DownloadFunctionBinaryMeta : Type 0 where
  pub function_id : ℕ
  pub function_path : String
  pub function_filename : String
  pub bytes_written : ℕ

pub record GatewayFunctionRequestMeta : Type 0 where
  pub function_id : String
  pub request_method : String
  pub request_path : String
  pub forwarded_path : String
  pub request_body_bytes : ℕ
  pub headers_count : ℕ
  pub runner_addr : String
  pub instance_id : String
  pub runner_conn_reused : Bool
  pub route_took : ℕ
  pub invoke_took : ℕ
  pub response_status_code : ℕ
  pub response_body_bytes : ℕ

module _ (duration_string : ℕ → String) where
  abbrev pub download_attributes : DownloadMeta → List Attribute
  download_attributes m =
      ("download.function_id", any_string m.function_id)
      ∷ ("download.downloaded", any_bool m.downloaded)
      ∷ ("download.download_path", any_string m.download_path)
      ∷ ("download.stored_path", any_string m.stored_path)
      ∷ ("download.bytes_written", any_int m.bytes_written)
      ∷ ("download.took", any_string (duration_string m.download_took))
      ∷ ("download.reused_from_fs", any_bool m.reused_from_fs)
      ∷ ("download.reused_inflight", any_bool m.reused_in_flight)
      ∷ ("download.source_path", any_string m.source_path)
      ∷ ("download.source_filename", any_string m.source_filename)
      ∷ []

  abbrev pub instance_start_attributes : InstanceStartMeta → List Attribute
  instance_start_attributes m =
      ("instance_start.function_path", any_string m.function_path)
      ∷ ("instance_start.instance_id", any_string m.instance_id)
      ∷ ("instance_start.runtime_type", any_string m.runtime_type)
      ∷ ("instance_start.instance_addr", any_string m.instance_addr)
      ∷ ("instance_start.start_took", any_string (duration_string m.start_took))
      ∷ ("instance_start.reused_assigned", any_bool m.reused_assigned)
      ∷ ("instance_start.start_retries", any_int m.start_retries)
      ∷ ("instance_start.heartbeat_retries", any_int m.heartbeat_retries)
      ∷ ("instance_start.heartbeat_took", any_string (duration_string m.heartbeat_took))
      ∷ []

  abbrev pub invoke_attributes : InvokeMeta → List Attribute
  invoke_attributes m =
      ("invoke.instance_id", any_string m.instance_id)
      ∷ ("invoke.func.path", any_string m.function_path)
      ∷ ("invoke.method", any_string m.method)
      ∷ ("invoke.path", any_string m.path)
      ∷ ("invoke.request_body_bytes", any_int m.request_body_bytes)
      ∷ ("invoke.headers_count", any_int m.headers_count)
      ∷ ("invoke.worker_already_running", any_bool m.worker_already_running)
      ∷ ("invoke.started_worker", any_bool m.started_worker)
      ∷ ("invoke.queue_depth_at_enqueue", any_int m.queue_depth_at_enqueue)
      ∷ ("invoke.took", any_string (duration_string m.invocation_took))
      ∷ ("invoke.queue_wait_took", any_string (duration_string m.queue_wait_took))
      ∷ ("invoke.guest_invoke_took", any_string (duration_string m.guest_invoke_took))
      ∷ ("invoke.response_status_code", any_int m.response_status_code)
      ∷ ("invoke.response_body_bytes", any_int m.response_body_bytes)
      ∷ []

  abbrev pub guest_invoke_attributes : GuestInvokeMeta → List Attribute
  guest_invoke_attributes m =
      ("guest.invoke.method", any_string m.method)
      ∷ ("guest.invoke.path", any_string m.path)
      ∷ ("guest.invoke.request_body_bytes", any_int m.request_body_bytes)
      ∷ ("guest.invoke.headers_count", any_int m.headers_count)
      ∷ ("guest.invoke.took", any_string (duration_string m.invocation_took))
      ∷ ("guest.invoke.response_status_code", any_int m.response_status_code)
      ∷ ("guest.invoke.response_body_bytes", any_int m.response_body_bytes)
      ∷ []

  abbrev pub route_function_attributes : RouteFunctionMeta → List Attribute
  route_function_attributes m =
      ("route_function.function_id", any_string m.function_id)
      ∷ ("route_function.runner_addr", any_string m.runner_addr)
      ∷ ("route_function.instance_id", any_string m.instance_id)
      ∷ ("route_function.took", any_string (duration_string m.route_took))
      ∷ ("route_function.cache_hit", any_bool m.cache_hit)
      ∷ ("route_function.prepared_instance", any_bool m.prepared_instance)
      ∷ ("route_function.prepare_took", any_string (duration_string m.prepare_took))
      ∷ []

  abbrev pub register_runner_attributes : RegisterRunnerMeta → List Attribute
  register_runner_attributes m =
      ("register_runner.addr", any_string m.runner_addr)
      ∷ ("register_runner.id", any_int m.runner_id)
      ∷ ("register_runner.preexisting", any_bool m.preexisting_runner)
      ∷ ("register_runner.heartbeat_ok", any_bool m.runner_heartbeat_ok)
      ∷ ("register_runner.took", any_string (duration_string m.registration_took))
      ∷ ("register_runner.heartbeat_took", any_string (duration_string m.heartbeat_took))
      ∷ ("register_runner.persist_took", any_string (duration_string m.persist_took))
      ∷ []

  abbrev pub create_function_attributes : CreateFunctionMeta → List Attribute
  create_function_attributes m =
      ("function.name", any_string m.function_name)
      ∷ ("function.id", any_int m.function_id)
      ∷ ("function.bytes", any_int m.function_bytes)
      ∷ ("function.hash", any_string m.function_hash)
      ∷ ("function.path", any_string m.function_path)
      ∷ ("function.alread_exists", any_bool m.function_already_exists)
      ∷ []

  abbrev pub download_function_binary_attributes : DownloadFunctionBinaryMeta → List Attribute
  download_function_binary_attributes m =
      ("download.function_id", any_int m.function_id)
      ∷ ("download.function_path", any_string m.function_path)
      ∷ ("download.function_filename", any_string m.function_filename)
      ∷ ("download.bytes_written", any_int m.bytes_written)
      ∷ []

  abbrev pub gateway_function_request_attributes : GatewayFunctionRequestMeta → List Attribute
  gateway_function_request_attributes m =
      ("gateway.function_id", any_string m.function_id)
      ∷ ("gateway.request_method", any_string m.request_method)
      ∷ ("gateway.request_path", any_string m.request_path)
      ∷ ("gateway.forwarded_path", any_string m.forwarded_path)
      ∷ ("gateway.request_body_bytes", any_int m.request_body_bytes)
      ∷ ("gateway.headers_count", any_int m.headers_count)
      ∷ ("gateway.runner_addr", any_string m.runner_addr)
      ∷ ("gateway.instance_id", any_string m.instance_id)
      ∷ ("gateway.runner_conn_reused", any_bool m.runner_conn_reused)
      ∷ ("gateway.route_took", any_string (duration_string m.route_took))
      ∷ ("gateway.invoke_took", any_string (duration_string m.invoke_took))
      ∷ ("gateway.response_status_code", any_int m.response_status_code)
      ∷ ("gateway.response_body_bytes", any_int m.response_body_bytes)
      ∷ []
