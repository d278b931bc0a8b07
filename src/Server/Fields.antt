-- ===== src/Server/Fields.antt =====
-- pkg/server/grpc_context.go and pkg/server/http_context.go: from what is held to the fields of a log
-- line and the attributes of a span. A slice that is nil is an empty list.
use servermore.Base.{List, Option, String, [], none, some, ℕ, ◌++◌, ◌∷◌}
use servermore.Server.Context.{Context, Holders}
use servermore.Server.Meta.{
  AnyValue, Attribute, any_bool, any_int, any_string, create_function_attributes,
  download_attributes, download_function_binary_attributes, gateway_function_request_attributes,
  guest_invoke_attributes, instance_start_attributes, invoke_attributes, register_runner_attributes,
  route_function_attributes,
}
use servermore.Server.Metas.{
  get_create_function_meta, get_download_function_binary_meta, get_download_meta,
  get_gateway_function_request_meta, get_guest_invoke_meta, get_instance_start_meta,
  get_invoke_meta, get_register_runner_meta, get_route_function_meta,
}

unfoldable pub fields_from_attributes : List Attribute → List AnyValue
fields_from_attributes [] = []
fields_from_attributes ((key, shown) ∷ attrs) =
    any_string key ∷ shown ∷ fields_from_attributes attrs

-- The loop reads the fields in pairs; a key that is not a text drops its pair.
unfoldable pub slog_attrs_from_fields : List AnyValue → List Attribute
slog_attrs_from_fields (any_string key ∷ shown ∷ fields) =
    (key, shown) ∷ slog_attrs_from_fields fields
slog_attrs_from_fields (any_bool key ∷ shown ∷ fields) = slog_attrs_from_fields fields
slog_attrs_from_fields (any_int key ∷ shown ∷ fields) = slog_attrs_from_fields fields
slog_attrs_from_fields _ = []

abbrev pub attributes_of : {M : Type 0} → (M → List Attribute) → Option M → List Attribute
attributes_of f none = []
attributes_of f (some m) = f m

-- The ids of the span, where its context is valid.
abbrev pub Span : Type 0
Span = Option (String × String)

abbrev pub span_attributes : Span → List Attribute
span_attributes none = []
span_attributes (some (trace_id, span_id)) =
    ("trace_id", any_string trace_id) ∷ ("span_id", any_string span_id) ∷ []

abbrev pub span_fields : Span → List AnyValue
span_fields none = []
span_fields (some (trace_id, span_id)) =
    any_string "trace_id" ∷ any_string trace_id ∷ any_string "span_id" ∷ any_string span_id ∷ []

module _ (duration_string : ℕ → String) (ctx : Context) (holders : Holders) where
  unfoldable pub context_attributes : List Attribute
  context_attributes =
      attributes_of (download_attributes duration_string) (get_download_meta ctx holders)
      ++ attributes_of (guest_invoke_attributes duration_string) (get_guest_invoke_meta ctx holders)
      ++ attributes_of (instance_start_attributes duration_string)
          (get_instance_start_meta ctx holders)
      ++ attributes_of (invoke_attributes duration_string) (get_invoke_meta ctx holders)
      ++ attributes_of (route_function_attributes duration_string)
          (get_route_function_meta ctx holders)
      ++ attributes_of (register_runner_attributes duration_string)
          (get_register_runner_meta ctx holders)

  unfoldable pub context_fields : Span → List AnyValue
  unfolding context_attributes fields_from_attributes
  context_fields span = span_fields span ++ fields_from_attributes context_attributes

  -- The attributes of the span, and of the three kinds that HTTP handlers set.
  abbrev pub http_attributes : Span → List Attribute
  http_attributes span =
      span_attributes span
      ++ attributes_of (download_function_binary_attributes duration_string)
          (get_download_function_binary_meta ctx holders)
      ++ attributes_of (create_function_attributes duration_string)
          (get_create_function_meta ctx holders)
      ++ attributes_of (gateway_function_request_attributes duration_string)
          (get_gateway_function_request_meta ctx holders)

  unfoldable pub http_context_fields : Span → List AnyValue
  unfolding fields_from_attributes
  http_context_fields span =
      span_fields span
      ++ fields_from_attributes (
          attributes_of (download_function_binary_attributes duration_string)
            (get_download_function_binary_meta ctx holders))
      ++ fields_from_attributes (
          attributes_of (create_function_attributes duration_string)
            (get_create_function_meta ctx holders))
      ++ fields_from_attributes (
          attributes_of (gateway_function_request_attributes duration_string)
            (get_gateway_function_request_meta ctx holders))

  unfoldable pub http_context_attrs : Span → List Attribute
  unfolding http_context_fields slog_attrs_from_fields
  http_context_attrs span = slog_attrs_from_fields (http_context_fields span)
