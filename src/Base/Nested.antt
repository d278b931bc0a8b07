-- ===== src/Base/Nested.antt =====
-- Go's `map[string]map[string]V`: a map of maps.
use Prim.Native.String.{String}
use mathlib.Core.Path.{◌≡◌, refl}
use mathlib.Core.Logic.{inl, inr}
use mathlib.Core.Bool.{true, false, ◌&&◌}
use mathlib.Core.Option.{Option, none, some}
use mathlib.Core.List.{[], ◌∷◌}
use native.Mathlib.Omega.{arith}
use text.Mathlib.TextEquality.{eq_iff}
use servermore.Base.Lists.{length}
use servermore.Base.Bools.{◌==◌, str_eq, if◌then◌else◌, Option-cases}
use servermore.Base.Maps.{
  get_or, Map, lookup, insert, delete, lookup-nil, lookup-insert, lookup-delete, lookup-insert_ne,
}

module _ {ℓ} {V : Type ℓ} where
  -- m[k][i], with Go's reading of a nil inner map: no entry.
  unfoldable pub lookup_in : String → String → Map (Map V) → Option V
  lookup_in k i m = elim (lookup k m) [ none ↦ none | some row ↦ lookup i row ]

  -- `if m[k] == nil { m[k] = make(...) }; m[k][i] = v`
  unfoldable pub insert_in : String → String → V → Map (Map V) → Map (Map V)
  insert_in k i v m = elim (lookup k m) [
    | none ↦ insert k (insert i v []) m
    | some row ↦ insert k (insert i v row) m
  ]

  -- `delete(m[k], i)`, which does nothing where m[k] is nil.
  unfoldable pub delete_in : String → String → Map (Map V) → Map (Map V)
  delete_in k i m = elim (lookup k m) [ none ↦ m | some row ↦ insert k (delete i row) m ]

  -- `delete(m[k], i); if len(m[k]) == 0 { delete(m, k) }`, nothing where m[k] is nil.
  unfoldable pub drop_in : String → String → Map (Map V) → Map (Map V)
  drop_in k i m = elim (lookup k m) [
    | none ↦ m
    | some row ↦ let rest = delete i row in if length rest == 0 then delete k m else insert k rest m
  ]

  pub lookup-in-insert :
      (k i : String) (v : V) (m : Map (Map V)) (k' i' : String)
      → lookup_in k' i' (insert_in k i v m)
        ≡ (if str_eq k k' && str_eq i i' then some v else lookup_in k' i' m)
  unfolding lookup_in insert_in
  lookup-in-insert k i v m k' i' = elim (Option-cases (lookup k m)) [
    | inl e ↦
        rw (e, insert_in)
          (ground (
            arith,
            e,
            eq_iff k k',
            eq_iff i i',
            lookup-insert k k' (insert i v []) m,
            lookup-insert i i' v [],
            lookup-nil {V = V} i',
          ))
    | inr (row, e) ↦
        rw (e, insert_in)
          (ground (
            arith,
            e,
            eq_iff k k',
            eq_iff i i',
            lookup-insert k k' (insert i v row) m,
            lookup-insert i i' v row,
          ))
  ]

  pub lookup-in-delete :
      (k i : String) (m : Map (Map V)) (k' i' : String)
      → lookup_in k' i' (delete_in k i m)
        ≡ (if str_eq k k' && str_eq i i' then none else lookup_in k' i' m)
  unfolding lookup_in delete_in
  lookup-in-delete k i m k' i' = elim (Option-cases (lookup k m)) [
    | inl e ↦ rw (e, delete_in) (ground (arith, e, eq_iff k k'))
    | inr (row, e) ↦
        rw (e, delete_in)
          (ground
            (arith, e, eq_iff k k', lookup-insert k k' (delete i row) m, lookup-delete i i' row))
  ]

  length-eq-0 : (row : Map V) → (length row == 0) ≡ true → row ≡ []
  length-eq-0 [] h = refl
  length-eq-0 (x ∷ row) h = ground arith

  pub lookup-in-drop :
      (k i : String) (m : Map (Map V)) (k' i' : String)
      → lookup_in k' i' (drop_in k i m)
        ≡ (if str_eq k k' && str_eq i i' then none else lookup_in k' i' m)
  unfolding lookup_in drop_in
  lookup-in-drop k i m k' i' = elim (Option-cases (lookup k m)) [
    | inl e ↦ rw (e, drop_in) (ground (arith, e, eq_iff k k'))
    | inr (row, e) ↦
        rw (e, drop_in)
          (ground (
            arith,
            e,
            eq_iff k k',
            lookup-insert k k' (delete i row) m,
            lookup-delete k k' m,
            lookup-delete i i' row,
            lookup-nil {V = V} i',
            length-eq-0 (delete i row),
          ))
  ]

  pub lookup-insert_in_ne :
      (k i : String) (v : V) (m : Map (Map V)) (k' : String)
      → str_eq k k' ≡ false
      → lookup k' (insert_in k i v m) ≡ lookup k' m
  unfolding insert_in
  lookup-insert_in_ne k i v m k' h = elim (Option-cases (lookup k m)) [
    | inl e ↦ rw (e, insert_in) (lookup-insert_ne k k' (insert i v []) m h)
    | inr (row, e) ↦ rw (e, insert_in) (lookup-insert_ne k k' (insert i v row) m h)
  ]

  pub lookup-delete_in_ne :
      (k i : String) (m : Map (Map V)) (k' : String)
      → str_eq k k' ≡ false
      → lookup k' (delete_in k i m) ≡ lookup k' m
  unfolding delete_in
  lookup-delete_in_ne k i m k' h = elim (Option-cases (lookup k m)) [
    | inl e ↦ rw (e, delete_in)
    | inr (row, e) ↦ rw (e, delete_in) (lookup-insert_ne k k' (delete i row) m h)
  ]

  pub lookup-row :
      (k i : String) (m : Map (Map V)) → lookup i (get_or [] (lookup k m)) ≡ lookup_in k i m
  unfolding lookup_in
  lookup-row k i m = elim (Option-cases (lookup k m)) [
    | inl e ↦ rw (e, get_or, lookup_in) (lookup-nil {V = V} i)
    | inr (row, e) ↦ rw (e, get_or, lookup_in)
  ]

  pub lookup-no_row : (k i : String) (m : Map (Map V)) → lookup k m ≡ none → lookup_in k i m ≡ none
  unfolding lookup_in
  lookup-no_row k i m e = rw (e, lookup_in)

  pub lookup-in-insert_row :
      (k : String) (row : Map V) (m : Map (Map V)) (k' i : String)
      → lookup_in k' i (insert k row m) ≡ (if str_eq k k' then lookup i row else lookup_in k' i m)
  unfolding lookup_in
  lookup-in-insert_row k row m k' i = ground (arith, eq_iff k k', lookup-insert k k' row m)

  pub lookup-in-delete_row :
      (k : String) (m : Map (Map V)) (k' i : String)
      → lookup_in k' i (delete k m) ≡ (if str_eq k k' then none else lookup_in k' i m)
  unfolding lookup_in
  lookup-in-delete_row k m k' i = ground (arith, eq_iff k k', lookup-delete k k' m)
