-- ===== src/Storage/Tests.antt =====
-- Runs of the storage's names, and its theorems at concrete inputs.
use servermore.Base.{List, [], bytes_eq, refl, ℕ, ◌++◌, ◌∷◌, ◌≡◌}
use servermore.Storage.{
  all_name_bytes, function_filename, has_slash, is_name_byte, last_element, matches_rest,
  only_slashes, unclean_func_filename, valid_filename,
}
use servermore.Storage.Names.{IsFlat, function_filename-IsFlat, function_filename_injective}

-- "a/b.go"
abbrev nested : List ℕ
nested = 97 ∷ 47 ∷ 98 ∷ 46 ∷ 103 ∷ 111 ∷ []

-- "b-FF.go"
named : function_filename nested (255 ∷ []) ≡ 98 ∷ 45 ∷ 70 ∷ 70 ∷ 46 ∷ 103 ∷ 111 ∷ []
unfolding function_filename valid_filename matches_rest is_name_byte all_name_bytes last_element
    only_slashes bytes_eq has_slash
named = refl

-- "../.." is stored as "func-01"
climbing :
    function_filename (46 ∷ 46 ∷ 47 ∷ 46 ∷ 46 ∷ []) (1 ∷ [])
    ≡ unclean_func_filename ++ (45 ∷ 48 ∷ 49 ∷ [])
unfolding function_filename valid_filename matches_rest is_name_byte all_name_bytes last_element
    only_slashes bytes_eq has_slash
climbing = refl

function_filename-IsFlat_example : IsFlat (function_filename nested (255 ∷ []))
function_filename-IsFlat_example = function_filename-IsFlat nested (255 ∷ [])

function_filename_injective_example : ◌≡◌ {A = List ℕ} (255 ∷ []) (255 ∷ [])
function_filename_injective_example =
    function_filename_injective nested (255 ∷ []) (255 ∷ []) refl refl
