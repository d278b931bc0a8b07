-- ===== src/Server/Refusals.antt =====
-- pkg/server/decode.go: which requests are refused, and with which code.
use servermore.Base.{Bool-cases, List, Option, inl, inr, none, refl, some, true, ℕ, ◌≡◌, ◌⊎◌}
use servermore.Base.Results.{Result, err, ok, wrap}
use servermore.Gateway.{after_prefix}
use servermore.Server.Decode.{
  JsonError, ServerError, api_error_of, by_message, decode, decode_failure, decode_request,
  decoding_error_code, eof, invalid_field_prefix, invalid_request_code, is_eof, other_json_error,
  unknown_key, unmarshal_type_error,
}

-- The field that the decoder did not know.
abbrev pub IsUnknownField : {T : Type 0} → Result JsonError T → List ℕ → Type 0
IsUnknownField first field_name =
    (message : List ℕ) × (first ≡ err (other_json_error message))
    × (after_prefix invalid_field_prefix message ≡ some field_name)

abbrev pub IsDecoded :
    {T : Type 0} → Result JsonError T → Option JsonError → Result ServerError T → Type 0
IsDecoded first second (ok dst) = (first ≡ ok dst) × (second ≡ some eof)
IsDecoded first second (err e) =
    (e.status ≡ 400)
    × (((field_name : List ℕ) × IsUnknownField first field_name
          × (e.cause ≡ unknown_key field_name)
          × (e.code ≡ invalid_request_code))
        ⊎ (((field_name : List ℕ) → ¬ IsUnknownField first field_name)
            × (e.code ≡ decoding_error_code)))

eof_only : (second : Option JsonError) → is_eof second ≡ true → second ≡ some eof
eof_only none e = cc
eof_only (some eof) e = refl
eof_only (some _) e = cc

module _ {T : Type 0} where
  by_message-IsDecoded :
      (message : List ℕ) (second : Option JsonError) (found : Option (List ℕ))
      → after_prefix invalid_field_prefix message ≡ found
      → IsDecoded {T = T}
          (err (other_json_error message))
          second
          (wrap api_error_of (err (by_message message found)))
  by_message-IsDecoded message second (some field_name) e =
      (refl, inl (field_name, (message, refl, e), refl, refl))
  by_message-IsDecoded message second none e =
      (refl, inr (λ field_name (other, same, known). cc, refl))

  -- A request is decoded to its one value; or it is refused with 400, and with the code of an invalid
  -- request exactly where the JSON decoder did not know a field, which the cause then names, and with
  -- the code of one that cannot be decoded otherwise.
  pub decode_request-IsDecoded :
      (first : Result JsonError T) (second : Option JsonError)
      → IsDecoded first second (decode_request first second)
  unfolding decode_request decode decode_failure
  decode_request-IsDecoded (ok dst) second = elim (Bool-cases (is_eof second)) [
    | inl ended ↦ rw ended (refl, eof_only second ended)
    | inr more ↦ rw more (refl, inr (λ field_name (message, same, known). cc, refl))
  ]
  decode_request-IsDecoded (err (other_json_error message)) second =
      by_message-IsDecoded message second (after_prefix invalid_field_prefix message) refl
  decode_request-IsDecoded (err (unmarshal_type_error field offset)) second =
      (refl, inr (λ field_name (message, same, known). cc, refl))
  decode_request-IsDecoded (err e) second =
      (refl, inr (λ field_name (message, same, known). cc, refl))
