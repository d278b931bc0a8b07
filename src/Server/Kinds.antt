-- ===== src/Server/Kinds.antt =====
-- pkg/server/grpc_context.go and pkg/server/http_context.go: what a handler may do with the nine kinds of
-- metadata, each through the functions of its own kind.
use servermore.Base.{Bool, List, Option, [], false, if◌then◌else◌, ◌||◌, ◌∷◌}
use servermore.Server.Context.{
  Context, Holders, Meta, MetaKey, create_function_meta, create_function_meta_key,
  download_function_binary_meta, download_function_binary_meta_key, download_meta,
  download_meta_key, gateway_function_request_meta, gateway_function_request_meta_key,
  guest_invoke_meta, guest_invoke_meta_key, instance_start_meta, instance_start_meta_key,
  invoke_meta, invoke_meta_key, key_eq, register_runner_meta, register_runner_meta_key,
  route_function_meta, route_function_meta_key,
}
use servermore.Server.Meta.{
  CreateFunctionMeta, DownloadFunctionBinaryMeta, DownloadMeta, GatewayFunctionRequestMeta,
  GuestInvokeMeta, InstanceStartMeta, InvokeMeta, RegisterRunnerMeta, RouteFunctionMeta,
}
use servermore.Server.Metas.{
  get_create_function_meta, get_download_function_binary_meta, get_download_meta,
  get_gateway_function_request_meta, get_guest_invoke_meta, get_instance_start_meta,
  get_invoke_meta, get_register_runner_meta, get_route_function_meta, map_meta,
  set_create_function_meta, set_download_function_binary_meta, set_download_meta,
  set_gateway_function_request_meta, set_guest_invoke_meta, set_instance_start_meta,
  set_invoke_meta, set_register_runner_meta, set_route_function_meta,
  with_create_function_meta_holder, with_download_function_binary_meta_holder,
  with_download_meta_holder, with_gateway_function_request_meta_holder,
  with_guest_invoke_meta_holder, with_instance_start_meta_holder, with_invoke_meta_holder,
  with_register_runner_meta_holder, with_route_function_meta_holder,
}

-- A call of one of the nine functions that set.
pub data SetCall : Type 0 where
  sets_download : Option DownloadMeta → SetCall
  sets_instance_start : Option InstanceStartMeta → SetCall
  sets_invoke : Option InvokeMeta → SetCall
  sets_guest_invoke : Option GuestInvokeMeta → SetCall
  sets_route_function : Option RouteFunctionMeta → SetCall
  sets_register_runner : Option RegisterRunnerMeta → SetCall
  sets_create_function : Option CreateFunctionMeta → SetCall
  sets_download_function_binary : Option DownloadFunctionBinaryMeta → SetCall
  sets_gateway_function_request : Option GatewayFunctionRequestMeta → SetCall

abbrev pub run_set : SetCall → Context → Holders → Holders
run_set (sets_download m) ctx holders = set_download_meta m ctx holders
run_set (sets_instance_start m) ctx holders = set_instance_start_meta m ctx holders
run_set (sets_invoke m) ctx holders = set_invoke_meta m ctx holders
run_set (sets_guest_invoke m) ctx holders = set_guest_invoke_meta m ctx holders
run_set (sets_route_function m) ctx holders = set_route_function_meta m ctx holders
run_set (sets_register_runner m) ctx holders = set_register_runner_meta m ctx holders
run_set (sets_create_function m) ctx holders = set_create_function_meta m ctx holders
run_set (sets_download_function_binary m) ctx holders =
    set_download_function_binary_meta m ctx holders
run_set (sets_gateway_function_request m) ctx holders =
    set_gateway_function_request_meta m ctx holders

unfoldable pub run_sets : List SetCall → Context → Holders → Holders
run_sets [] ctx holders = holders
run_sets (call ∷ calls) ctx holders = run_sets calls ctx (run_set call ctx holders)

-- The kind's own function that gets, and its own middleware.
abbrev pub get_kind : MetaKey → Context → Holders → Option Meta
get_kind download_meta_key ctx holders = map_meta download_meta (get_download_meta ctx holders)
get_kind instance_start_meta_key ctx holders =
    map_meta instance_start_meta (get_instance_start_meta ctx holders)
get_kind invoke_meta_key ctx holders = map_meta invoke_meta (get_invoke_meta ctx holders)
get_kind guest_invoke_meta_key ctx holders =
    map_meta guest_invoke_meta (get_guest_invoke_meta ctx holders)
get_kind route_function_meta_key ctx holders =
    map_meta route_function_meta (get_route_function_meta ctx holders)
get_kind register_runner_meta_key ctx holders =
    map_meta register_runner_meta (get_register_runner_meta ctx holders)
get_kind create_function_meta_key ctx holders =
    map_meta create_function_meta (get_create_function_meta ctx holders)
get_kind download_function_binary_meta_key ctx holders =
    map_meta download_function_binary_meta (get_download_function_binary_meta ctx holders)
get_kind gateway_function_request_meta_key ctx holders =
    map_meta gateway_function_request_meta (get_gateway_function_request_meta ctx holders)

abbrev pub with_kind : MetaKey → Context × Holders → Context × Holders
with_kind download_meta_key request = with_download_meta_holder request
with_kind instance_start_meta_key request = with_instance_start_meta_holder request
with_kind invoke_meta_key request = with_invoke_meta_holder request
with_kind guest_invoke_meta_key request = with_guest_invoke_meta_holder request
with_kind route_function_meta_key request = with_route_function_meta_holder request
with_kind register_runner_meta_key request = with_register_runner_meta_holder request
with_kind create_function_meta_key request = with_create_function_meta_holder request
with_kind download_function_binary_meta_key request =
    with_download_function_binary_meta_holder request
with_kind gateway_function_request_meta_key request =
    with_gateway_function_request_meta_holder request

-- The middlewares of the kinds, the innermost one first.
unfoldable pub with_kinds : List MetaKey → Context × Holders
with_kinds [] = ([], [])
with_kinds (k ∷ keys) = with_kind k (with_kinds keys)

-- What a call says: its kind and the value, which may be nil.
abbrev pub kind_of : SetCall → MetaKey
kind_of (sets_download m) = download_meta_key
kind_of (sets_instance_start m) = instance_start_meta_key
kind_of (sets_invoke m) = invoke_meta_key
kind_of (sets_guest_invoke m) = guest_invoke_meta_key
kind_of (sets_route_function m) = route_function_meta_key
kind_of (sets_register_runner m) = register_runner_meta_key
kind_of (sets_create_function m) = create_function_meta_key
kind_of (sets_download_function_binary m) = download_function_binary_meta_key
kind_of (sets_gateway_function_request m) = gateway_function_request_meta_key

abbrev pub value_of : SetCall → Option Meta
value_of (sets_download m) = map_meta download_meta m
value_of (sets_instance_start m) = map_meta instance_start_meta m
value_of (sets_invoke m) = map_meta invoke_meta m
value_of (sets_guest_invoke m) = map_meta guest_invoke_meta m
value_of (sets_route_function m) = map_meta route_function_meta m
value_of (sets_register_runner m) = map_meta register_runner_meta m
value_of (sets_create_function m) = map_meta create_function_meta m
value_of (sets_download_function_binary m) = map_meta download_function_binary_meta m
value_of (sets_gateway_function_request m) = map_meta gateway_function_request_meta m

-- The last value of a kind, or what was there before.
unfoldable pub last_value : MetaKey → List SetCall → Option Meta → Option Meta
last_value k [] before = before
last_value k (call ∷ calls) before =
    last_value k calls (if key_eq (kind_of call) k then value_of call else before)

unfoldable pub has_kind : MetaKey → List MetaKey → Bool
has_kind k [] = false
has_kind k (j ∷ keys) = key_eq j k || has_kind k keys
