-- ===== src/Server/Context.antt =====
-- pkg/server/grpc_context.go and pkg/server/http_context.go: a middleware puts an empty holder into the
-- context, under a key of its own; the handler sets what it holds, and the logs get it. The holders are
-- in a store, each at the address that its allocation gave. `ctx.Value` finds the innermost holder.
use servermore.Base.{
  Bool, List, Option, [], get_elem?, if◌then◌else◌, length, modify, none, some, ℕ, ◌++◌, ◌==◌, ◌∷◌,
}
use servermore.Base.Maps.{get_or}
use servermore.Server.Meta.{
  CreateFunctionMeta, DownloadFunctionBinaryMeta, DownloadMeta, GatewayFunctionRequestMeta,
  GuestInvokeMeta, InstanceStartMeta, InvokeMeta, RegisterRunnerMeta, RouteFunctionMeta,
}

pub data Meta : Type 0 where
  download_meta : DownloadMeta → Meta
  instance_start_meta : InstanceStartMeta → Meta
  invoke_meta : InvokeMeta → Meta
  guest_invoke_meta : GuestInvokeMeta → Meta
  route_function_meta : RouteFunctionMeta → Meta
  register_runner_meta : RegisterRunnerMeta → Meta
  create_function_meta : CreateFunctionMeta → Meta
  download_function_binary_meta : DownloadFunctionBinaryMeta → Meta
  gateway_function_request_meta : GatewayFunctionRequestMeta → Meta

pub data MetaKey : Type 0 where
  download_meta_key : MetaKey
  instance_start_meta_key : MetaKey
  invoke_meta_key : MetaKey
  guest_invoke_meta_key : MetaKey
  route_function_meta_key : MetaKey
  register_runner_meta_key : MetaKey
  create_function_meta_key : MetaKey
  download_function_binary_meta_key : MetaKey
  gateway_function_request_meta_key : MetaKey

abbrev pub key_number : MetaKey → ℕ
key_number download_meta_key = 0
key_number instance_start_meta_key = 1
key_number invoke_meta_key = 2
key_number guest_invoke_meta_key = 3
key_number route_function_meta_key = 4
key_number register_runner_meta_key = 5
key_number create_function_meta_key = 6
key_number download_function_binary_meta_key = 7
key_number gateway_function_request_meta_key = 8

abbrev pub key_eq : MetaKey → MetaKey → Bool
key_eq j k = key_number j == key_number k

abbrev pub Context : Type 0
Context = List (MetaKey × ℕ)

abbrev pub Holders : Type 0
Holders = List (Option Meta)

-- `ctx.Value(key)`
unfoldable pub holder_of : MetaKey → Context → Option ℕ
holder_of k [] = none
holder_of k ((j, holder) ∷ ctx) =
    let outer = holder_of k ctx in if key_eq j k then some holder else outer

-- A middleware: a new holder, in the context of the handler that it calls.
unfoldable pub with_meta_holder : MetaKey → Context × Holders → Context × Holders
with_meta_holder k (ctx, holders) = ((k, length holders) ∷ ctx, holders ++ (none ∷ []))

-- `ctx.Value(key).(*holder)`, and its field.
abbrev pub held : Option ℕ → Holders → Option Meta
held none holders = none
held (some holder) holders = get_or none (get_elem? holders holder)

unfoldable pub get_meta : MetaKey → Context → Holders → Option Meta
unfolding holder_of
get_meta k ctx holders = held (holder_of k ctx) holders

abbrev pub set_held : Option ℕ → Option Meta → Holders → Holders
set_held none meta holders = holders
set_held (some holder) meta holders = modify holder (λ old. meta) holders

-- A handler may also set nil.
unfoldable pub set_meta : MetaKey → Option Meta → Context → Holders → Holders
unfolding holder_of
set_meta k meta ctx holders = set_held (holder_of k ctx) meta holders
