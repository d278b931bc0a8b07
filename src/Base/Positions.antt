-- ===== src/Base/Positions.antt =====
-- Elements of a list by their index.
use Prim.Native.Nat.{ℕ, zero, suc, ◌<◌}
use mathlib.Core.Path.{◌≡◌, ap, refl}
use mathlib.Core.Logic.{◌≢◌, ◌⊎◌, inl, inr}
use mathlib.Core.Option.{Option, none, some}
use mathlib.Core.List.{List, [], ◌∷◌}
use native.Mathlib.Omega.{arith}
use servermore.Base.Maps.{get_or}
use servermore.Base.Lists.{length}

-- An element by its index; none where Go panics.
unfoldable pub get_elem? {ℓ} : {A : Type ℓ} → List A → ℕ → Option A
get_elem? [] i = none
get_elem? (x ∷ xs) zero = some x
get_elem? (x ∷ xs) (suc i) = get_elem? xs i

-- A write to the element at an index.
unfoldable pub modify {ℓ} : {A : Type ℓ} → ℕ → (A → A) → List A → List A
modify i f [] = []
modify zero f (x ∷ xs) = f x ∷ xs
modify (suc i) f (x ∷ xs) = x ∷ modify i f xs

pub get_elem?-lt {ℓ} :
    {A : Type ℓ} (xs : List A) (i : ℕ) (x : A) → get_elem? xs i ≡ some x → i < length xs
unfolding get_elem?
get_elem?-lt [] i x e = cc
get_elem?-lt (y ∷ xs) zero x e = omega arith
get_elem?-lt (y ∷ xs) (suc i) x e = omega (arith, get_elem?-lt xs i x e)

pub lt-get_elem? {ℓ} :
    {A : Type ℓ} (xs : List A) (i : ℕ) → i < length xs → (x : A) × (get_elem? xs i ≡ some x)
unfolding get_elem?
lt-get_elem? [] i below = absurd (omega arith)
lt-get_elem? (y ∷ xs) zero below = (y, refl)
lt-get_elem? (y ∷ xs) (suc i) below = lt-get_elem? xs i (omega arith)

pub length-modify {ℓ} :
    {A : Type ℓ} (i : ℕ) (f : A → A) (xs : List A) → length (modify i f xs) ≡ length xs
unfolding modify
length-modify i f [] = refl
length-modify zero f (x ∷ xs) = refl
length-modify (suc i) f (x ∷ xs) = omega (arith, length-modify i f xs)

-- Where a write of `f` may leave an entry.
pub get_elem?-modify {ℓ} :
    {A : Type ℓ} (i j : ℕ) (f : A → A) (xs : List A) (x : A)
    → get_elem? xs j ≡ some x
    → (get_elem? (modify i f xs) j ≡ some x)
      ⊎ ((i ≡ j) × (get_elem? (modify i f xs) j ≡ some (f x)))
unfolding get_elem? modify
get_elem?-modify i j f [] x e = cc
get_elem?-modify zero zero f (y ∷ xs) x e = inr (refl, ap (λ o. some (f (get_or y o))) e)
get_elem?-modify zero (suc j) f (y ∷ xs) x e = inl e
get_elem?-modify (suc i) zero f (y ∷ xs) x e = inl e
get_elem?-modify (suc i) (suc j) f (y ∷ xs) x e = elim (get_elem?-modify i j f xs x e) [
  | inl other ↦ inl other
  | inr (same, changed) ↦ inr (ap suc same, changed)
]

pub get_elem?-modify_self {ℓ} :
    {A : Type ℓ} (i : ℕ) (f : A → A) (xs : List A) (x : A)
    → get_elem? xs i ≡ some x
    → get_elem? (modify i f xs) i ≡ some (f x)
unfolding get_elem? modify
get_elem?-modify_self i f [] x e = cc
get_elem?-modify_self zero f (y ∷ xs) x e = ap (λ o. some (f (get_or y o))) e
get_elem?-modify_self (suc i) f (y ∷ xs) x e = get_elem?-modify_self i f xs x e

pub get_elem?-modify_ne {ℓ} :
    {A : Type ℓ} (i j : ℕ) (f : A → A) (xs : List A)
    → i ≢ j
    → get_elem? (modify i f xs) j ≡ get_elem? xs j
unfolding get_elem? modify
get_elem?-modify_ne i j f [] apart = refl
get_elem?-modify_ne zero zero f (y ∷ xs) apart = absurd (apart refl)
get_elem?-modify_ne zero (suc j) f (y ∷ xs) apart = refl
get_elem?-modify_ne (suc i) zero f (y ∷ xs) apart = refl
get_elem?-modify_ne (suc i) (suc j) f (y ∷ xs) apart =
    get_elem?-modify_ne i j f xs (λ same. apart (ap suc same))
