-- ===== src/Server/Shown.antt =====
-- pkg/server/http_context.go: what a log line of an HTTP request shows.
use servermore.Base.{
  List, String, [], ap, append_assoc, append_nil, none, refl, some, sym, ℕ, ◌++◌, ◌∙◌, ◌∷◌, ◌≡◌,
}
use servermore.Server.Context.{Context, Holders}
use servermore.Server.Fields.{
  Span, attributes_of, fields_from_attributes, http_attributes, http_context_attrs,
  http_context_fields, slog_attrs_from_fields, span_attributes, span_fields,
}
use servermore.Server.Meta.{
  AnyValue, Attribute, create_function_attributes, download_function_binary_attributes,
  gateway_function_request_attributes,
}
use servermore.Server.Metas.{
  get_create_function_meta, get_download_function_binary_meta, get_gateway_function_request_meta,
}

-- Fields from which these attributes are read, whatever fields stand behind them.
abbrev Shows : List AnyValue → List Attribute → Type 0
Shows fields attrs =
    (behind : List AnyValue)
    → slog_attrs_from_fields (fields ++ behind) ≡ attrs ++ slog_attrs_from_fields behind

Shows-fields_from_attributes : (attrs : List Attribute) → Shows (fields_from_attributes attrs) attrs
unfolding slog_attrs_from_fields fields_from_attributes
Shows-fields_from_attributes [] behind = refl
Shows-fields_from_attributes ((key, shown) ∷ attrs) behind =
    ap (λ later. (key, shown) ∷ later) (Shows-fields_from_attributes attrs behind)

Shows-span_fields : (span : Span) → Shows (span_fields span) (span_attributes span)
unfolding slog_attrs_from_fields
Shows-span_fields none behind = refl
Shows-span_fields (some (trace_id, span_id)) behind = refl

Shows-append :
    (fields more : List AnyValue) (attrs others : List Attribute)
    → Shows fields attrs
    → Shows more others
    → Shows (fields ++ more) (attrs ++ others)
Shows-append fields more attrs others first second behind =
    ap slog_attrs_from_fields (append_assoc fields more behind)
    ∙ first (more ++ behind)
    ∙ ap (λ later. attrs ++ later) (second behind)
    ∙ sym (append_assoc attrs others (slog_attrs_from_fields behind))

Shows-whole :
    (fields : List AnyValue) (attrs : List Attribute)
    → Shows fields attrs
    → slog_attrs_from_fields fields ≡ attrs
unfolding slog_attrs_from_fields
Shows-whole fields attrs shows =
    ap slog_attrs_from_fields (sym (append_nil fields)) ∙ shows [] ∙ append_nil attrs

all_shown :
    (span : Span) (first second third : List Attribute)
    → slog_attrs_from_fields (
        span_fields span
        ++ fields_from_attributes first
        ++ fields_from_attributes second
        ++ fields_from_attributes third)
      ≡ span_attributes span ++ first ++ second ++ third
all_shown span first second third =
    let one : Shows (span_fields span ++ fields_from_attributes first)
        (span_attributes span ++ first) =
      Shows-append (span_fields span) (fields_from_attributes first) (span_attributes span) first
        (Shows-span_fields span) (Shows-fields_from_attributes first) in
    let two : Shows
        (span_fields span ++ fields_from_attributes first ++ fields_from_attributes second)
        (span_attributes span ++ first ++ second) =
      Shows-append (span_fields span ++ fields_from_attributes first)
        (fields_from_attributes second) (span_attributes span ++ first) second one
        (Shows-fields_from_attributes second) in
    Shows-whole
      (span_fields span
        ++ fields_from_attributes first
        ++ fields_from_attributes second
        ++ fields_from_attributes third)
      (span_attributes span ++ first ++ second ++ third)
      (Shows-append
        (span_fields span ++ fields_from_attributes first ++ fields_from_attributes second)
        (fields_from_attributes third) (span_attributes span ++ first ++ second) third two
        (Shows-fields_from_attributes third))

-- The attributes of the log line of an HTTP request are those of its span, if it is valid, and then
-- those of what the handlers have set of the binary's download, the function's creation and the
-- gateway's request: the way through the flat list of fields loses and mixes up none.
pub http_context_attrs_correct :
    (duration_string : ℕ → String) (ctx : Context) (holders : Holders) (span : Span)
    → http_context_attrs duration_string ctx holders span
      ≡ http_attributes duration_string ctx holders span
unfolding http_context_attrs http_context_fields
http_context_attrs_correct duration_string ctx holders span =
    all_shown span
      (attributes_of (download_function_binary_attributes duration_string)
        (get_download_function_binary_meta ctx holders))
      (attributes_of (create_function_attributes duration_string)
        (get_create_function_meta ctx holders))
      (attributes_of (gateway_function_request_attributes duration_string)
        (get_gateway_function_request_meta ctx holders))
