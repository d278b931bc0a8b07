-- ===== src/Server/Metas.antt =====
-- pkg/server/grpc_context.go and pkg/server/http_context.go: the functions that set and get one kind.
use servermore.Base.{Option, none, some}
use servermore.Server.Context.{
  Context, Holders, Meta, create_function_meta, create_function_meta_key,
  download_function_binary_meta, download_function_binary_meta_key, download_meta,
  download_meta_key, gateway_function_request_meta, gateway_function_request_meta_key, get_meta,
  guest_invoke_meta, guest_invoke_meta_key, instance_start_meta, instance_start_meta_key,
  invoke_meta, invoke_meta_key, register_runner_meta, register_runner_meta_key, route_function_meta,
  route_function_meta_key, set_meta, with_meta_holder,
}
use servermore.Server.Meta.{
  CreateFunctionMeta, DownloadFunctionBinaryMeta, DownloadMeta, GatewayFunctionRequestMeta,
  GuestInvokeMeta, InstanceStartMeta, InvokeMeta, RegisterRunnerMeta, RouteFunctionMeta,
}

abbrev pub map_meta : {M : Type 0} → (M → Meta) → Option M → Option Meta
map_meta f none = none
map_meta f (some m) = some (f m)

abbrev pub download_of : Option Meta → Option DownloadMeta
download_of (some (download_meta m)) = some m
download_of _ = none

abbrev pub get_download_meta : Context → Holders → Option DownloadMeta
get_download_meta ctx holders = download_of (get_meta download_meta_key ctx holders)

abbrev pub set_download_meta : Option DownloadMeta → Context → Holders → Holders
set_download_meta meta ctx holders =
    set_meta download_meta_key (map_meta download_meta meta) ctx holders

abbrev pub with_download_meta_holder : Context × Holders → Context × Holders
with_download_meta_holder request = with_meta_holder download_meta_key request

abbrev pub instance_start_of : Option Meta → Option InstanceStartMeta
instance_start_of (some (instance_start_meta m)) = some m
instance_start_of _ = none

abbrev pub get_instance_start_meta : Context → Holders → Option InstanceStartMeta
get_instance_start_meta ctx holders =
    instance_start_of (get_meta instance_start_meta_key ctx holders)

abbrev pub set_instance_start_meta : Option InstanceStartMeta → Context → Holders → Holders
set_instance_start_meta meta ctx holders =
    set_meta instance_start_meta_key (map_meta instance_start_meta meta) ctx holders

abbrev pub with_instance_start_meta_holder : Context × Holders → Context × Holders
with_instance_start_meta_holder request = with_meta_holder instance_start_meta_key request

abbrev pub invoke_of : Option Meta → Option InvokeMeta
invoke_of (some (invoke_meta m)) = some m
invoke_of _ = none

abbrev pub get_invoke_meta : Context → Holders → Option InvokeMeta
get_invoke_meta ctx holders = invoke_of (get_meta invoke_meta_key ctx holders)

abbrev pub set_invoke_meta : Option InvokeMeta → Context → Holders → Holders
set_invoke_meta meta ctx holders = set_meta invoke_meta_key (map_meta invoke_meta meta) ctx holders

abbrev pub with_invoke_meta_holder : Context × Holders → Context × Holders
with_invoke_meta_holder request = with_meta_holder invoke_meta_key request

abbrev pub guest_invoke_of : Option Meta → Option GuestInvokeMeta
guest_invoke_of (some (guest_invoke_meta m)) = some m
guest_invoke_of _ = none

abbrev pub get_guest_invoke_meta : Context → Holders → Option GuestInvokeMeta
get_guest_invoke_meta ctx holders = guest_invoke_of (get_meta guest_invoke_meta_key ctx holders)

abbrev pub set_guest_invoke_meta : Option GuestInvokeMeta → Context → Holders → Holders
set_guest_invoke_meta meta ctx holders =
    set_meta guest_invoke_meta_key (map_meta guest_invoke_meta meta) ctx holders

abbrev pub with_guest_invoke_meta_holder : Context × Holders → Context × Holders
with_guest_invoke_meta_holder request = with_meta_holder guest_invoke_meta_key request

abbrev pub route_function_of : Option Meta → Option RouteFunctionMeta
route_function_of (some (route_function_meta m)) = some m
route_function_of _ = none

abbrev pub get_route_function_meta : Context → Holders → Option RouteFunctionMeta
get_route_function_meta ctx holders =
    route_function_of (get_meta route_function_meta_key ctx holders)

abbrev pub set_route_function_meta : Option RouteFunctionMeta → Context → Holders → Holders
set_route_function_meta meta ctx holders =
    set_meta route_function_meta_key (map_meta route_function_meta meta) ctx holders

abbrev pub with_route_function_meta_holder : Context × Holders → Context × Holders
with_route_function_meta_holder request = with_meta_holder route_function_meta_key request

abbrev pub register_runner_of : Option Meta → Option RegisterRunnerMeta
register_runner_of (some (register_runner_meta m)) = some m
register_runner_of _ = none

abbrev pub get_register_runner_meta : Context → Holders → Option RegisterRunnerMeta
get_register_runner_meta ctx holders =
    register_runner_of (get_meta register_runner_meta_key ctx holders)

abbrev pub set_register_runner_meta : Option RegisterRunnerMeta → Context → Holders → Holders
set_register_runner_meta meta ctx holders =
    set_meta register_runner_meta_key (map_meta register_runner_meta meta) ctx holders

abbrev pub with_register_runner_meta_holder : Context × Holders → Context × Holders
with_register_runner_meta_holder request = with_meta_holder register_runner_meta_key request

abbrev pub create_function_of : Option Meta → Option CreateFunctionMeta
create_function_of (some (create_function_meta m)) = some m
create_function_of _ = none

abbrev pub get_create_function_meta : Context → Holders → Option CreateFunctionMeta
get_create_function_meta ctx holders =
    create_function_of (get_meta create_function_meta_key ctx holders)

abbrev pub set_create_function_meta : Option CreateFunctionMeta → Context → Holders → Holders
set_create_function_meta meta ctx holders =
    set_meta create_function_meta_key (map_meta create_function_meta meta) ctx holders

abbrev pub with_create_function_meta_holder : Context × Holders → Context × Holders
with_create_function_meta_holder request = with_meta_holder create_function_meta_key request

abbrev pub download_function_binary_of : Option Meta → Option DownloadFunctionBinaryMeta
download_function_binary_of (some (download_function_binary_meta m)) = some m
download_function_binary_of _ = none

abbrev pub get_download_function_binary_meta : Context → Holders → Option DownloadFunctionBinaryMeta
get_download_function_binary_meta ctx holders =
    download_function_binary_of (get_meta download_function_binary_meta_key ctx holders)

abbrev pub set_download_function_binary_meta :
    Option DownloadFunctionBinaryMeta → Context → Holders → Holders
set_download_function_binary_meta meta ctx holders =
    set_meta download_function_binary_meta_key (map_meta download_function_binary_meta meta) ctx
      holders

abbrev pub with_download_function_binary_meta_holder : Context × Holders → Context × Holders
with_download_function_binary_meta_holder request =
    with_meta_holder download_function_binary_meta_key request

abbrev pub gateway_function_request_of : Option Meta → Option GatewayFunctionRequestMeta
gateway_function_request_of (some (gateway_function_request_meta m)) = some m
gateway_function_request_of _ = none

abbrev pub get_gateway_function_request_meta : Context → Holders → Option GatewayFunctionRequestMeta
get_gateway_function_request_meta ctx holders =
    gateway_function_request_of (get_meta gateway_function_request_meta_key ctx holders)

abbrev pub set_gateway_function_request_meta :
    Option GatewayFunctionRequestMeta → Context → Holders → Holders
set_gateway_function_request_meta meta ctx holders =
    set_meta gateway_function_request_meta_key (map_meta gateway_function_request_meta meta) ctx
      holders

abbrev pub with_gateway_function_request_meta_holder : Context × Holders → Context × Holders
with_gateway_function_request_meta_holder request =
    with_meta_holder gateway_function_request_meta_key request
