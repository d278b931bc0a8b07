-- ===== src/Storage/Names.antt =====
-- The names of stored files.
use servermore.Base.{
  Bool, Bool-cases, List, [], ap, arith, bytes_eq, false, inl, inr, length, not, refl, slash, true,
  ℕ, ◌%◌, ◌&&◌, ◌++◌, ◌/◌, ◌==◌, ◌||◌, ◌∷◌, ◌≡◌,
}
use servermore.Storage.{
  all_name_bytes, dash, dot, ext_behind, file_base, file_ext, function_filename, has_slash, hex,
  hex_digit, is_extension, is_name_byte, matches_rest, sanitize_filename, trim_suffix,
  unclean_func_filename, valid_filename,
}

-- No slash stands in the text.
abbrev pub IsFlat : List ℕ → Type 0
IsFlat text = has_slash text ≡ false

name_byte : (b : ℕ) → is_name_byte b ≡ true → (b == slash) ≡ false
unfolding is_name_byte
name_byte b e = ground arith

both : (a b : Bool) → (a && b) ≡ true → (a ≡ true) × (b ≡ true)
both a b e = ground arith

neither : (a b : Bool) → (a || b) ≡ false → (a ≡ false) × (b ≡ false)
neither a b e = ground arith

all_name_bytes-IsFlat : (text : List ℕ) → all_name_bytes text ≡ true → IsFlat text
unfolding all_name_bytes has_slash
all_name_bytes-IsFlat [] e = refl
all_name_bytes-IsFlat (b ∷ text) e =
    let (first, later) = both (is_name_byte b) (all_name_bytes text) e in
    rw (name_byte b first) (all_name_bytes-IsFlat text later)

extension-IsFlat : (text : List ℕ) → is_extension text ≡ true → IsFlat text
extension-IsFlat [] e = cc
extension-IsFlat (b ∷ text) e = all_name_bytes-IsFlat (b ∷ text) e

matches_rest-IsFlat : (text : List ℕ) → matches_rest text ≡ true → IsFlat text
unfolding matches_rest has_slash
matches_rest-IsFlat [] e = refl
matches_rest-IsFlat (b ∷ text) e = elim (Bool-cases (is_name_byte b)) [
  | inl named ↦ rw (name_byte b named) (matches_rest-IsFlat text (rw named at e))
  | inr unnamed ↦
      let (at_dot, extension) = both (b == dot) (is_extension text) (rw unnamed at e) in
      let apart : (b == slash) ≡ false = ground arith in rw apart (extension-IsFlat text extension)
]

valid_filename-IsFlat : (text : List ℕ) → valid_filename text ≡ true → IsFlat text
unfolding valid_filename has_slash
valid_filename-IsFlat [] e = cc
valid_filename-IsFlat (b ∷ text) e =
    let (first, later) = both (is_name_byte b) (matches_rest text) e in
    rw (name_byte b first) (matches_rest-IsFlat text later)

unclean_is_valid : valid_filename unclean_func_filename ≡ true
unfolding valid_filename matches_rest is_name_byte
unclean_is_valid = refl

-- Whatever the name, what `sanitizeFilename` makes of it matches `validFilename`; a last element that
-- matches is kept.
pub sanitize_filename_correct :
    (name : List ℕ)
    → (valid_filename (sanitize_filename name) ≡ true)
      × (valid_filename (file_base name) ≡ true → sanitize_filename name ≡ file_base name)
unfolding sanitize_filename
sanitize_filename_correct name = elim (Bool-cases (valid_filename (file_base name))) [
  | inl valid ↦ (rw valid valid, λ _. rw valid)
  | inr unclean ↦ (rw unclean unclean_is_valid, λ valid. cc)
]

append-IsFlat : (xs ys : List ℕ) → IsFlat xs → IsFlat ys → IsFlat (xs ++ ys)
unfolding has_slash
append-IsFlat [] ys first later = later
append-IsFlat (b ∷ xs) ys first later =
    let (here_not, rest) = neither (b == slash) (has_slash xs) first in
    rw here_not (append-IsFlat xs ys rest later)

trim_suffix-IsFlat : (text suffix : List ℕ) → IsFlat text → IsFlat (trim_suffix text suffix)
unfolding trim_suffix has_slash
trim_suffix-IsFlat [] suffix flat = refl
trim_suffix-IsFlat (b ∷ text) suffix flat =
    let (first, later) = neither (b == slash) (has_slash text) flat in
    elim (Bool-cases (bytes_eq (b ∷ text) suffix)) [
      | inl same ↦ rw same refl
      | inr other ↦ rw (other, first) (trim_suffix-IsFlat text suffix later)
    ]

hex_digit-apart : (d : ℕ) → (hex_digit d == slash) ≡ false
hex_digit-apart d = ground arith

hex-IsFlat : (bytes : List ℕ) → IsFlat (hex bytes)
unfolding hex has_slash
hex-IsFlat [] = refl
hex-IsFlat (b ∷ bytes) = rw (hex_digit-apart (b / 16), hex_digit-apart (b % 16)) (hex-IsFlat bytes)

ext_behind-IsFlat :
    (b : ℕ) (text later : List ℕ)
    → IsFlat (b ∷ text)
    → IsFlat later
    → IsFlat (ext_behind b text later)
ext_behind-IsFlat b text [] flat later = elim (Bool-cases (b == dot && not (has_slash text))) [
  | inl from_here ↦ rw from_here flat
  | inr elsewhere ↦ rw elsewhere later
]
ext_behind-IsFlat b text (c ∷ rest) flat later = later

file_ext-IsFlat : (text : List ℕ) → IsFlat text → IsFlat (file_ext text)
unfolding file_ext has_slash
file_ext-IsFlat [] flat = flat
file_ext-IsFlat (b ∷ text) flat =
    ext_behind-IsFlat b text (file_ext text) flat
      (file_ext-IsFlat text (neither (b == slash) (has_slash text) flat).1)

dashed-IsFlat : (text : List ℕ) → IsFlat text → IsFlat (dash ∷ text)
unfolding has_slash
dashed-IsFlat text flat = flat

-- The name of a stored file has no slash, whatever the function's name and hash: the file is made in
-- the storage's directory itself.
pub function_filename-IsFlat : (func_name hash : List ℕ) → IsFlat (function_filename func_name hash)
unfolding function_filename
function_filename-IsFlat func_name hash =
    let name = sanitize_filename func_name in
    let flat = valid_filename-IsFlat name (sanitize_filename_correct func_name).0 in
    let ext = file_ext-IsFlat name flat in
    append-IsFlat (trim_suffix name (file_ext name)) (dash ∷ (hex hash ++ file_ext name))
      (trim_suffix-IsFlat name (file_ext name) flat)
      (append-IsFlat (dash ∷ hex hash) (file_ext name) (dashed-IsFlat (hex hash) (hex-IsFlat hash))
        ext)

abbrev tail_of : List ℕ → List ℕ
tail_of [] = []
tail_of (b ∷ text) = text

abbrev head_or : ℕ → List ℕ → ℕ
head_or default [] = default
head_or default (b ∷ text) = b

append_cancel : (xs ys zs : List ℕ) → xs ++ ys ≡ xs ++ zs → ys ≡ zs
append_cancel [] ys zs e = e
append_cancel (x ∷ xs) ys zs e = append_cancel xs ys zs (ap tail_of e)

hex_digits_injective :
    (a b : ℕ)
    → hex_digit (a / 16) ≡ hex_digit (b / 16)
    → hex_digit (a % 16) ≡ hex_digit (b % 16)
    → a ≡ b
hex_digits_injective a b high low = ground arith

hex_injective :
    (xs ys ext : List ℕ) → length xs ≡ length ys → hex xs ++ ext ≡ hex ys ++ ext → xs ≡ ys
unfolding hex
hex_injective [] [] ext same e = refl
hex_injective [] (b ∷ ys) ext same e = absurd (omega (arith, same))
hex_injective (a ∷ xs) [] ext same e = absurd (omega (arith, same))
hex_injective (a ∷ xs) (b ∷ ys) ext same e =
    let first = hex_digits_injective a b (ap (head_or 0) e) (ap (λ l. head_or 0 (tail_of l)) e) in
    let later = hex_injective xs ys ext (omega (arith, same)) (ap (λ l. tail_of (tail_of l)) e) in
    rw (first, later) refl

-- Functions that are stored under one name, with hashes of one length, have files of their own if
-- their hashes differ.
pub function_filename_injective :
    (func_name hash other_hash : List ℕ)
    → length hash ≡ length other_hash
    → function_filename func_name hash ≡ function_filename func_name other_hash
    → hash ≡ other_hash
unfolding function_filename
function_filename_injective func_name hash other_hash same e =
    let name = sanitize_filename func_name in
    hex_injective hash other_hash (file_ext name) same (
      ap tail_of (
        append_cancel (trim_suffix name (file_ext name)) (dash ∷ (hex hash ++ file_ext name))
          (dash ∷ (hex other_hash ++ file_ext name)) e))
