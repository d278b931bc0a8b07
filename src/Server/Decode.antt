-- ===== src/Server/Decode.antt =====
-- pkg/server/decode.go and pkg/server/error.go: what a request that cannot be decoded is answered. The
-- decoder of encoding/json is a parameter: what it answers first, and what it answers when asked for a
-- second value. A message is a constructor, with what it is made of.
use servermore.Base.{
  Bool, List, Option, String, [], bytes_eq, false, if◌then◌else◌, none, some, str_eq, true, ℕ, ◌∷◌,
}
use servermore.Base.Results.{Result, err, ok, wrap}
use servermore.Gateway.{after_prefix}

pub data JsonError : Type 0 where
  syntax_error : (offset : ℕ) → JsonError
  unexpected_eof eof invalid_unmarshal_error : JsonError
  unmarshal_type_error : (field : String) (offset : ℕ) → JsonError
  other_json_error : (message : List ℕ) → JsonError

pub data DecodeMessage : Type 0 where
  badly_formed_at incorrect_type_at : (offset : ℕ) → DecodeMessage
  badly_formed must_not_be_empty too_large invalid_target single_value : DecodeMessage
  incorrect_type_for : (field : String) → DecodeMessage
  unknown_key : (field_name : List ℕ) → DecodeMessage
  unchanged : (message : List ℕ) → DecodeMessage

-- The error that `decode` returns: a `decodeErr` has a code.
pub data DecodeError : Type 0 where
  plain_error : DecodeMessage → DecodeError
  decode_err : DecodeMessage → (code : String) → DecodeError

-- "json: unknown field "
abbrev pub invalid_field_prefix : List ℕ
invalid_field_prefix =
    106 ∷ 115 ∷ 111 ∷ 110 ∷ 58 ∷ 32 ∷ 117 ∷ 110 ∷ 107 ∷ 110 ∷ 111 ∷ 119 ∷ 110 ∷ 32 ∷ 102 ∷ 105 ∷ 101
    ∷ 108 ∷ 100 ∷ 32 ∷ []

-- "http: request body too large"
abbrev pub large_body_error_str : List ℕ
large_body_error_str =
    104 ∷ 116 ∷ 116 ∷ 112 ∷ 58 ∷ 32 ∷ 114 ∷ 101 ∷ 113 ∷ 117 ∷ 101 ∷ 115 ∷ 116 ∷ 32 ∷ 98 ∷ 111 ∷ 100
    ∷ 121 ∷ 32 ∷ 116 ∷ 111 ∷ 111 ∷ 32 ∷ 108 ∷ 97 ∷ 114 ∷ 103 ∷ 101 ∷ []

abbrev pub invalid_request_code : String
invalid_request_code = "invalid.request"

abbrev pub decoding_error_code : String
decoding_error_code = "undecodable.request"

-- The cases on the text of an error.
abbrev pub by_message : List ℕ → Option (List ℕ) → DecodeError
by_message message (some field_name) = decode_err (unknown_key field_name) invalid_request_code
by_message message none =
    plain_error (if bytes_eq message large_body_error_str then too_large else unchanged message)

-- The switch of `decode`.
unfoldable pub decode_failure : JsonError → DecodeError
unfolding after_prefix bytes_eq
decode_failure (syntax_error offset) = plain_error (badly_formed_at offset)
decode_failure unexpected_eof = plain_error badly_formed
decode_failure (unmarshal_type_error field offset) =
    plain_error (if str_eq field "" then incorrect_type_at offset else incorrect_type_for field)
decode_failure eof = plain_error must_not_be_empty
decode_failure (other_json_error message) =
    by_message message (after_prefix invalid_field_prefix message)
decode_failure invalid_unmarshal_error = plain_error invalid_target

abbrev pub is_eof : Option JsonError → Bool
is_eof (some eof) = true
is_eof _ = false

-- `decode`. The second answer is none where a second value was read.
unfoldable pub decode : {T : Type 0} → Result JsonError T → Option JsonError → Result DecodeError T
unfolding decode_failure
decode (err e) second = err (decode_failure e)
decode (ok dst) second = if is_eof second then ok dst else err (plain_error single_value)

-- `Error`, whose detail is the text of its cause.
pub record ServerError : Type 0 where
  pub cause : DecodeMessage
  pub code : String
  pub status : ℕ

abbrev pub error_to_api_error : DecodeMessage → String → ServerError
error_to_api_error cause code = record { cause = cause; code = code; status = 400 }

abbrev pub api_error_of : DecodeError → ServerError
api_error_of (plain_error message) = error_to_api_error message decoding_error_code
api_error_of (decode_err message code) = error_to_api_error message code

-- `Decode`
unfoldable pub decode_request :
    {T : Type 0} → Result JsonError T → Option JsonError → Result ServerError T
unfolding decode
decode_request first second = wrap api_error_of (decode first second)
