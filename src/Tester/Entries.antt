-- ===== src/Tester/Entries.antt =====
-- servermore-tester/model.go: the list of the functions, and what a write to one of them keeps.
use servermore.Base.{
  List, Option, String, [], ap, arith, get_elem?, get_elem?-modify, inl, inr, length, length-modify,
  modify, none, refl, some, suc, zero, ℕ, ◌<◌, ◌∷◌, ◌≡◌, ◌≤◌,
}
use servermore.Base.Maps.{Map, get_or, lookup}
use servermore.Tester.Keys.{field_count}
use servermore.Tester.Ui.{FunctionEntry}
use servermore.Tester.Update.{store_paths}

-- The field is one of those that the selected function has.
abbrev pub IsField : List FunctionEntry → ℕ → ℕ → Type 0
IsField functions i field =
    (entry : FunctionEntry) × (get_elem? functions i ≡ some entry)
    × (field < field_count entry.deployed)

-- The functions are as many as before, and each has at least the fields that it had.
abbrev pub IsGrown : List FunctionEntry → List FunctionEntry → Type 0
IsGrown functions others =
    (length others ≡ length functions)
    × ((i field : ℕ) → IsField functions i field → IsField others i field)

pub IsGrown-modify :
    (i : ℕ) (f : FunctionEntry → FunctionEntry) (functions : List FunctionEntry)
    (grows : (entry : FunctionEntry)
      → field_count entry.deployed ≤ field_count ((f entry).deployed))
    → IsGrown functions (modify i f functions)
IsGrown-modify i f functions grows = (
  length-modify i f functions,
  λ j field (entry, found, below). elim (get_elem?-modify i j f functions entry found) [
    | inl same ↦ (entry, same, below)
    | inr (_, changed) ↦ (f entry, changed, omega (arith, grows entry))
  ],
)

length-store_paths :
    (binaries : Map String) (functions : List FunctionEntry)
    → length (store_paths binaries functions) ≡ length functions
unfolding store_paths
length-store_paths binaries [] = refl
length-store_paths binaries (entry ∷ entries) = ap suc (length-store_paths binaries entries)

IsField-store_paths :
    (binaries : Map String) (functions : List FunctionEntry) (i field : ℕ)
    → IsField functions i field
    → IsField (store_paths binaries functions) i field
unfolding store_paths get_elem?
IsField-store_paths binaries [] i field (entry, found, below) = cc
IsField-store_paths binaries (first ∷ entries) zero field (entry, found, below) = (
  record first { binary_path = get_or "" (lookup first.binary_name binaries) },
  refl,
  rw (ap (λ o. field_count ((get_or first o).deployed)) found) below,
)
IsField-store_paths binaries (first ∷ entries) (suc i) field inside =
    IsField-store_paths binaries entries i field inside

pub IsGrown-store_paths :
    (binaries : Map String) (functions : List FunctionEntry)
    → IsGrown functions (store_paths binaries functions)
IsGrown-store_paths binaries functions =
    (length-store_paths binaries functions, IsField-store_paths binaries functions)

abbrev pub HasFunction : {F : Type 0} → Option F → ℕ → List FunctionEntry → Type 0
HasFunction none i functions = Unit
HasFunction (some form) i functions = i < length functions

pub HasFunction-IsGrown :
    {F : Type 0} (form : Option F) (i : ℕ) (functions others : List FunctionEntry)
    → IsGrown functions others
    → HasFunction form i functions
    → HasFunction form i others
HasFunction-IsGrown none i functions others grown has = tt
HasFunction-IsGrown (some form) i functions others (same, _) has = omega arith
