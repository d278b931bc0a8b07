-- ===== src/Server/Tests.antt =====
-- The theorems about what the servers share, at concrete inputs.
use servermore.Base.{List, [], false, if◌then◌else◌, none, refl, some, ℕ, ◌++◌, ◌∷◌, ◌≡◌}
use servermore.Base.Results.{Result, err}
use servermore.Gateway.{after_prefix}
use servermore.Server.Context.{
  Holders, MetaKey, create_function_meta, create_function_meta_key,
  gateway_function_request_meta_key,
}
use servermore.Server.Decode.{
  JsonError, decode, decode_failure, decode_request, invalid_field_prefix, other_json_error,
  unknown_key,
}
use servermore.Server.Fields.{http_attributes, http_context_attrs}
use servermore.Server.Kinds.{
  SetCall, get_kind, has_kind, last_value, run_sets, sets_create_function, sets_download,
  sets_invoke, with_kinds,
}
use servermore.Server.Meta.{CreateFunctionMeta}
use servermore.Server.Refusals.{IsDecoded, decode_request-IsDecoded}
use servermore.Server.Separate.{get_kind-run_sets}
use servermore.Server.Shown.{http_context_attrs_correct}

abbrev created : CreateFunctionMeta
created = record {
  function_name = "x";
  function_id = 7;
  function_bytes = 2;
  function_hash = "ab";
  function_path = "/f";
  function_already_exists = false;
}

abbrev chain : List MetaKey
chain = gateway_function_request_meta_key ∷ create_function_meta_key ∷ []

abbrev calls : List SetCall
calls =
    sets_create_function none
    ∷ sets_download none
    ∷ sets_create_function (some created)
    ∷ sets_invoke none
    ∷ []

get_kind-run_sets_example :
    get_kind create_function_meta_key
      ((with_kinds chain).0)
      (run_sets calls ((with_kinds chain).0) ((with_kinds chain).1))
    ≡ (if has_kind create_function_meta_key chain
        then last_value create_function_meta_key calls none
        else none)
get_kind-run_sets_example = get_kind-run_sets create_function_meta_key chain calls

shown_meta : last_value create_function_meta_key calls none ≡ some (create_function_meta created)
unfolding last_value
shown_meta = refl

abbrev stored_holders : Holders
stored_holders = some (create_function_meta created) ∷ []

http_context_attrs_correct_example :
    http_context_attrs
      (λ n. "0s")
      ((create_function_meta_key, 0) ∷ [])
      stored_holders
      (some ("t", "s"))
    ≡ http_attributes
        (λ n. "0s")
        ((create_function_meta_key, 0) ∷ [])
        stored_holders
        (some ("t", "s"))
http_context_attrs_correct_example =
    http_context_attrs_correct (λ n. "0s") ((create_function_meta_key, 0) ∷ []) stored_holders
      (some ("t", "s"))

abbrev unknown_a : Result JsonError ℕ
unknown_a = err (other_json_error (invalid_field_prefix ++ (34 ∷ 97 ∷ 34 ∷ [])))

names_field :
    decode_request unknown_a none
    ≡ err
        (record { cause = unknown_key (34 ∷ 97 ∷ 34 ∷ []); code = "invalid.request"; status = 400 })
unfolding decode_request decode decode_failure after_prefix
names_field = refl

decode_request-IsDecoded_example : IsDecoded unknown_a none (decode_request unknown_a none)
decode_request-IsDecoded_example = decode_request-IsDecoded unknown_a none
