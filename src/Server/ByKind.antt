-- ===== src/Server/ByKind.antt =====
-- pkg/server/grpc_context.go and pkg/server/http_context.go: each kind's own functions use its own key,
-- and give back what was set.
use servermore.Base.{
  ==_iff, Option, ap, if◌then◌else◌, none, refl, some, sym, true, ℕ, ◌==◌, ◌∙◌, ◌≡◌,
}
use servermore.Server.Context.{
  Context, Holders, Meta, MetaKey, create_function_meta, create_function_meta_key,
  download_function_binary_meta, download_function_binary_meta_key, download_meta,
  download_meta_key, gateway_function_request_meta, gateway_function_request_meta_key, get_meta,
  guest_invoke_meta, guest_invoke_meta_key, instance_start_meta, instance_start_meta_key,
  invoke_meta, invoke_meta_key, key_eq, key_number, register_runner_meta, register_runner_meta_key,
  route_function_meta, route_function_meta_key, set_meta, with_meta_holder,
}
use servermore.Server.Kinds.{
  SetCall, get_kind, kind_of, run_set, sets_create_function, sets_download,
  sets_download_function_binary, sets_gateway_function_request, sets_guest_invoke,
  sets_instance_start, sets_invoke, sets_register_runner, sets_route_function, value_of, with_kind,
}
use servermore.Server.Metas.{
  create_function_of, download_function_binary_of, download_of, gateway_function_request_of,
  guest_invoke_of, instance_start_of, invoke_of, map_meta, register_runner_of, route_function_of,
}

pub run_set-set_meta :
    (call : SetCall) (ctx : Context) (holders : Holders)
    → run_set call ctx holders ≡ set_meta (kind_of call) (value_of call) ctx holders
run_set-set_meta (sets_download m) ctx holders = refl
run_set-set_meta (sets_instance_start m) ctx holders = refl
run_set-set_meta (sets_invoke m) ctx holders = refl
run_set-set_meta (sets_guest_invoke m) ctx holders = refl
run_set-set_meta (sets_route_function m) ctx holders = refl
run_set-set_meta (sets_register_runner m) ctx holders = refl
run_set-set_meta (sets_create_function m) ctx holders = refl
run_set-set_meta (sets_download_function_binary m) ctx holders = refl
run_set-set_meta (sets_gateway_function_request m) ctx holders = refl

pub with_kind-with_meta_holder :
    (k : MetaKey) (request : Context × Holders) → with_kind k request ≡ with_meta_holder k request
with_kind-with_meta_holder download_meta_key request = refl
with_kind-with_meta_holder instance_start_meta_key request = refl
with_kind-with_meta_holder invoke_meta_key request = refl
with_kind-with_meta_holder guest_invoke_meta_key request = refl
with_kind-with_meta_holder route_function_meta_key request = refl
with_kind-with_meta_holder register_runner_meta_key request = refl
with_kind-with_meta_holder create_function_meta_key request = refl
with_kind-with_meta_holder download_function_binary_meta_key request = refl
with_kind-with_meta_holder gateway_function_request_meta_key request = refl

-- What is left of a value that is read as one of this kind.
abbrev pub read_as : MetaKey → Option Meta → Option Meta
read_as download_meta_key meta = map_meta download_meta (download_of meta)
read_as instance_start_meta_key meta = map_meta instance_start_meta (instance_start_of meta)
read_as invoke_meta_key meta = map_meta invoke_meta (invoke_of meta)
read_as guest_invoke_meta_key meta = map_meta guest_invoke_meta (guest_invoke_of meta)
read_as route_function_meta_key meta = map_meta route_function_meta (route_function_of meta)
read_as register_runner_meta_key meta = map_meta register_runner_meta (register_runner_of meta)
read_as create_function_meta_key meta = map_meta create_function_meta (create_function_of meta)
read_as download_function_binary_meta_key meta =
    map_meta download_function_binary_meta (download_function_binary_of meta)
read_as gateway_function_request_meta_key meta =
    map_meta gateway_function_request_meta (gateway_function_request_of meta)

pub get_kind-get_meta :
    (k : MetaKey) (ctx : Context) (holders : Holders)
    → get_kind k ctx holders ≡ read_as k (get_meta k ctx holders)
get_kind-get_meta download_meta_key ctx holders = refl
get_kind-get_meta instance_start_meta_key ctx holders = refl
get_kind-get_meta invoke_meta_key ctx holders = refl
get_kind-get_meta guest_invoke_meta_key ctx holders = refl
get_kind-get_meta route_function_meta_key ctx holders = refl
get_kind-get_meta register_runner_meta_key ctx holders = refl
get_kind-get_meta create_function_meta_key ctx holders = refl
get_kind-get_meta download_function_binary_meta_key ctx holders = refl
get_kind-get_meta gateway_function_request_meta_key ctx holders = refl

pub read_as-value_of : (call : SetCall) → read_as (kind_of call) (value_of call) ≡ value_of call
read_as-value_of (sets_download none) = refl
read_as-value_of (sets_download (some m)) = refl
read_as-value_of (sets_instance_start none) = refl
read_as-value_of (sets_instance_start (some m)) = refl
read_as-value_of (sets_invoke none) = refl
read_as-value_of (sets_invoke (some m)) = refl
read_as-value_of (sets_guest_invoke none) = refl
read_as-value_of (sets_guest_invoke (some m)) = refl
read_as-value_of (sets_route_function none) = refl
read_as-value_of (sets_route_function (some m)) = refl
read_as-value_of (sets_register_runner none) = refl
read_as-value_of (sets_register_runner (some m)) = refl
read_as-value_of (sets_create_function none) = refl
read_as-value_of (sets_create_function (some m)) = refl
read_as-value_of (sets_download_function_binary none) = refl
read_as-value_of (sets_download_function_binary (some m)) = refl
read_as-value_of (sets_gateway_function_request none) = refl
read_as-value_of (sets_gateway_function_request (some m)) = refl

pub read_as-none : (k : MetaKey) → read_as k none ≡ none
read_as-none download_meta_key = refl
read_as-none instance_start_meta_key = refl
read_as-none invoke_meta_key = refl
read_as-none guest_invoke_meta_key = refl
read_as-none route_function_meta_key = refl
read_as-none register_runner_meta_key = refl
read_as-none create_function_meta_key = refl
read_as-none download_function_binary_meta_key = refl
read_as-none gateway_function_request_meta_key = refl

abbrev numbered : ℕ → MetaKey
numbered n =
    if n == 0
    then download_meta_key
    else if n == 1
    then instance_start_meta_key
    else if n == 2
    then invoke_meta_key
    else if n == 3
    then guest_invoke_meta_key
    else if n == 4
    then route_function_meta_key
    else if n == 5
    then register_runner_meta_key
    else if n == 6
    then create_function_meta_key
    else if n == 7
    then download_function_binary_meta_key
    else gateway_function_request_meta_key

numbered-key_number : (k : MetaKey) → numbered (key_number k) ≡ k
numbered-key_number download_meta_key = refl
numbered-key_number instance_start_meta_key = refl
numbered-key_number invoke_meta_key = refl
numbered-key_number guest_invoke_meta_key = refl
numbered-key_number route_function_meta_key = refl
numbered-key_number register_runner_meta_key = refl
numbered-key_number create_function_meta_key = refl
numbered-key_number download_function_binary_meta_key = refl
numbered-key_number gateway_function_request_meta_key = refl

pub key_eq→eq : (j k : MetaKey) → key_eq j k ≡ true → j ≡ k
key_eq→eq j k e =
    sym (numbered-key_number j)
    ∙ ap numbered ((==_iff (key_number j) (key_number k)).0 e)
    ∙ numbered-key_number k
