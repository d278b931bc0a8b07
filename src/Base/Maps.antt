-- ===== src/Base/Maps.antt =====
-- Go's `map[string]V` as an association list, the keys in the order in which `range` visits them.
-- The zero value of a missing key is written out where the source reads one.
use Prim.Native.String.{String}
use mathlib.Core.Path.{◌≡◌, refl}
use mathlib.Core.Logic.{◌⊎◌}
use mathlib.Core.Bool.{Bool, true, false}
use mathlib.Core.Option.{Option, none, some}
use mathlib.Core.List.{List, [], ◌∷◌}
use native.Mathlib.Omega.{arith}
use text.Mathlib.TextEquality.{eq_iff}
use text.Mathlib.TextPositions.{eq_refl}
use servermore.Base.Bools.{str_eq, if◌then◌else◌}

abbrev pub Map {ℓ} : Type ℓ → Type ℓ
Map V = List (String × V)

abbrev pub is_some {ℓ} : {A : Type ℓ} → Option A → Bool
is_some none = false
is_some (some a) = true

abbrev pub get_or {ℓ} : {A : Type ℓ} → A → Option A → A
get_or d none = d
get_or d (some a) = a

module _ {ℓ} {V : Type ℓ} where
  -- `value, ok := m[key]`
  unfoldable pub lookup : String → Map V → Option V
  lookup key [] = none
  lookup key ((first, value) ∷ others) = if str_eq first key then some value else lookup key others

  -- `m[key] = value`: in place of the old entry, or behind all others.
  unfoldable pub insert : String → V → Map V → Map V
  insert key value [] = (key, value) ∷ []
  insert key value ((first, old) ∷ others) =
      let later = insert key value others in
      if str_eq first key then (first, value) ∷ others else (first, old) ∷ later

  -- `delete(m, key)`
  unfoldable pub delete : String → Map V → Map V
  delete key [] = []
  delete key ((first, old) ∷ others) =
      let rest = delete key others in if str_eq first key then rest else (first, old) ∷ rest

  pub lookup-nil : (key : String) → lookup key [] ≡ none
  unfolding lookup
  lookup-nil key = refl

  pub lookup-insert :
      (key probe : String) (value : V) (m : Map V)
      → lookup probe (insert key value m)
        ≡ (if str_eq key probe then some value else lookup probe m)
  unfolding insert lookup
  lookup-insert key probe value [] = refl
  lookup-insert key probe value ((first, old) ∷ others) = ground (
    arith,
    lookup-insert key probe value others,
    eq_iff first probe,
    eq_iff first key,
    eq_iff key probe,
  )

  pub lookup-delete :
      (key probe : String) (m : Map V)
      → lookup probe (delete key m) ≡ (if str_eq key probe then none else lookup probe m)
  unfolding delete lookup
  lookup-delete key probe [] = ground arith
  lookup-delete key probe ((first, old) ∷ others) = ground (
    arith,
    lookup-delete key probe others,
    eq_iff first probe,
    eq_iff first key,
    eq_iff key probe,
  )

pub lookup-insert_self {ℓ} :
    {V : Type ℓ} (k : String) (v : V) (m : Map V) → lookup k (insert k v m) ≡ some v
lookup-insert_self k v m = simp (lookup-insert, eq_refl)

pub lookup-insert_ne {ℓ} :
    {V : Type ℓ} (k j : String) (v : V) (m : Map V)
    → str_eq k j ≡ false
    → lookup j (insert k v m) ≡ lookup j m
lookup-insert_ne k j v m h = rw (lookup-insert k j v m, h)

pub lookup-delete_self {ℓ} : {V : Type ℓ} (k : String) (m : Map V) → lookup k (delete k m) ≡ none
lookup-delete_self k m = simp (lookup-delete, eq_refl)

pub lookup-delete_ne {ℓ} :
    {V : Type ℓ} (k j : String) (m : Map V)
    → str_eq k j ≡ false
    → lookup j (delete k m) ≡ lookup j m
lookup-delete_ne k j m h = rw (lookup-delete k j m, h)

-- The map has this entry, among those that `range` visits.
abbrev pub Has : {V : Type 0} → String → V → Map V → Type 0
Has k v [] = ⊥
Has k v ((j, w) ∷ m) = ((j ≡ k) × (w ≡ v)) ⊎ Has k v m
