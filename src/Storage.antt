-- ===== src/Storage.antt =====
-- pkg/commander/func_storage.go: where the file of a function is stored. Texts are lists of bytes. The
-- functions of path/filepath, strings, regexp and fmt are written as the source uses them.
pub mod Names
mod Tests
use servermore.Base.{
  Bool, List, String, [], bytes_eq, false, if◌then◌else◌, leb, ltb, not, slash, true, ℕ, ◌%◌, ◌&&◌,
  ◌++◌, ◌+◌, ◌/◌, ◌==◌, ◌||◌, ◌∷◌,
}
use servermore.Base.Results.{Result, ok, ◌>>=◌}

abbrev pub dot : ℕ
dot = 46

abbrev pub dash : ℕ
dash = 45

abbrev pub within : ℕ → ℕ → ℕ → Bool
within low high b = leb low b && leb b high

-- `[a-zA-Z0-9_ -]`
unfoldable pub is_name_byte : ℕ → Bool
is_name_byte b =
    within 97 122 b || (within 65 90 b || (within 48 57 b || (b == 95 || (b == 32 || b == 45))))

unfoldable pub all_name_bytes : List ℕ → Bool
all_name_bytes [] = true
all_name_bytes (b ∷ text) = is_name_byte b && all_name_bytes text

abbrev pub is_extension : List ℕ → Bool
is_extension [] = false
is_extension (b ∷ text) = all_name_bytes (b ∷ text)

-- The rest of a match of `validFilename`, behind its first byte.
unfoldable pub matches_rest : List ℕ → Bool
matches_rest [] = true
matches_rest (b ∷ text) =
    let rest = matches_rest text in if is_name_byte b then rest else (b == dot && is_extension text)

-- `validFilename`: name bytes, and then at most one dot with name bytes behind it.
unfoldable pub valid_filename : List ℕ → Bool
unfolding matches_rest
valid_filename [] = false
valid_filename (b ∷ text) = is_name_byte b && matches_rest text

unfoldable pub only_slashes : List ℕ → Bool
only_slashes [] = true
only_slashes (b ∷ text) = b == slash && only_slashes text

unfoldable pub has_slash : List ℕ → Bool
has_slash [] = false
has_slash (b ∷ text) = b == slash || has_slash text

-- The text behind its last slash that another byte follows, without the slashes at its end.
unfoldable pub last_element : List ℕ → List ℕ → List ℕ
unfolding only_slashes
last_element current [] = current
last_element current (b ∷ text) =
    let inside = last_element (current ++ (b ∷ [])) text in
    let fresh = last_element [] text in
    let ended = last_element current text in
    if not (b == slash) then inside else (if only_slashes text then ended else fresh)

-- `filepath.Base`
unfoldable pub file_base : List ℕ → List ℕ
unfolding last_element only_slashes
file_base [] = dot ∷ []
file_base (b ∷ text) = if only_slashes (b ∷ text) then slash ∷ [] else last_element [] (b ∷ text)

-- `UncleanFuncFilename`, "func"
abbrev pub unclean_func_filename : List ℕ
unclean_func_filename = 102 ∷ 117 ∷ 110 ∷ 99 ∷ []

unfoldable pub sanitize_filename : List ℕ → List ℕ
unfolding file_base valid_filename
sanitize_filename name =
    if not (valid_filename (file_base name)) then unclean_func_filename else file_base name

abbrev pub ext_behind : ℕ → List ℕ → List ℕ → List ℕ
ext_behind b text [] = if b == dot && not (has_slash text) then b ∷ text else []
ext_behind b text (c ∷ rest) = c ∷ rest

-- `filepath.Ext`: from the last dot on, in the last element.
unfoldable pub file_ext : List ℕ → List ℕ
unfolding has_slash
file_ext [] = []
file_ext (b ∷ text) = ext_behind b text (file_ext text)

-- `strings.TrimSuffix`
unfoldable pub trim_suffix : List ℕ → List ℕ → List ℕ
trim_suffix [] suffix = []
trim_suffix (b ∷ text) suffix =
    let rest = trim_suffix text suffix in if bytes_eq (b ∷ text) suffix then [] else b ∷ rest

abbrev pub hex_digit : ℕ → ℕ
hex_digit d = if ltb d 10 then 48 + d else 55 + d

-- `%X` of bytes
unfoldable pub hex : List ℕ → List ℕ
hex [] = []
hex (b ∷ bytes) = hex_digit (b / 16) ∷ hex_digit (b % 16) ∷ hex bytes

unfoldable pub function_filename : List ℕ → List ℕ → List ℕ
unfolding sanitize_filename file_ext trim_suffix hex
function_filename func_name hash =
    let ext = file_ext (sanitize_filename func_name) in
    trim_suffix (sanitize_filename func_name) ext ++ (dash ∷ (hex hash ++ ext))

-- `Save`, with the answer of the file system. `filepath.Join` of a clean root, other than "/", and a
-- name that has no slash and is not a dot or two.
unfoldable pub save :
    (List ℕ → List ℕ → Result String (Unit {0}))
    → List ℕ
    → List ℕ
    → List ℕ
    → List ℕ
    → Result String (List ℕ)
unfolding function_filename
save create_file storage_root func_name hash func_bytes =
    let func_path = storage_root ++ (slash ∷ function_filename func_name hash) in
    create_file func_path func_bytes >>= λ _. ok func_path
