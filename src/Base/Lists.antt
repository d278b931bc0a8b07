-- ===== src/Base/Lists.antt =====
-- Lists measured by native numbers, under the library's names.
use Prim.Native.Nat.{ℕ, suc, ◌+◌}
use mathlib.Core.Path.{◌≡◌, refl}
use mathlib.Core.List.{List, [], ◌∷◌, ◌++◌}
use mathlib.Core.Bool.{Bool, true, false, ◌&&◌}
use mathlib.Core.Logic.{inl, inr}
use native.Mathlib.Omega.{arith}
use servermore.Base.Bools.{Bool-cases, ◌==◌, ==_iff}

abbrev pub All {ℓ κ} : {A : Type ℓ} → (A → Type κ) → List A → Type κ
All P [] = Unit
All P (x ∷ xs) = P x × All P xs

module _ {ℓ} {A : Type ℓ} where
  abbrev pub length : List A → ℕ
  length [] = 0
  length (x ∷ xs) = suc (length xs)

  pub length-append : (xs ys : List A) → length (xs ++ ys) ≡ length xs + length ys
  length-append [] ys = omega arith
  length-append (x ∷ xs) ys = omega (arith, length-append xs ys)

  pub append_nil : (xs : List A) → xs ++ [] ≡ xs
  append_nil [] = refl
  append_nil (x ∷ xs) = rw (append_nil xs) refl

  pub append_behind : (xs : List A) (x : A) (ys : List A) → (xs ++ (x ∷ [])) ++ ys ≡ xs ++ (x ∷ ys)
  append_behind [] x ys = refl
  append_behind (first ∷ xs) x ys = rw (append_behind xs x ys)

  pub length-behind : (xs : List A) (x : A) → length (xs ++ (x ∷ [])) ≡ suc (length xs)
  length-behind xs x = omega (arith, length-append xs (x ∷ []))

-- Bytes, as natural numbers.
abbrev pub slash : ℕ
slash = 47

unfoldable pub bytes_eq : List ℕ → List ℕ → Bool
bytes_eq [] [] = true
bytes_eq (a ∷ xs) (b ∷ ys) = (a == b) && bytes_eq xs ys
bytes_eq _ _ = false

pub bytes_eq_refl : (bytes : List ℕ) → bytes_eq bytes bytes ≡ true
unfolding bytes_eq
bytes_eq_refl [] = refl
bytes_eq_refl (a ∷ xs) = rw ((==_iff a a).1 refl, bytes_eq_refl xs)

pub bytes_eq→≡ : (xs ys : List ℕ) → bytes_eq xs ys ≡ true → xs ≡ ys
unfolding bytes_eq
bytes_eq→≡ [] [] e = refl
bytes_eq→≡ [] (b ∷ ys) e = cc
bytes_eq→≡ (a ∷ xs) [] e = cc
bytes_eq→≡ (a ∷ xs) (b ∷ ys) e = elim (Bool-cases (a == b)) [
  | inl same ↦
      let later = bytes_eq→≡ xs ys (rw same at e) in
      let first : a ≡ b = (==_iff a b).0 same in rw (first, later) refl
  | inr apart ↦ let impossible : false ≡ true = rw apart at e in cc
]
