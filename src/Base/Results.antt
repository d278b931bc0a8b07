-- ===== src/Base/Results.antt =====
-- Go's pair of a value and an error, with the value dropped where the error is not nil.
use mathlib.Core.Path.{◌≡◌, ap, refl}
use mathlib.Core.Logic.{◌⊎◌, inl, inr}
use mathlib.Core.Bool.{Bool, true, false}
use servermore.Base.Bools.{if◌then◌else◌}

pub data Result {ℓ κ} (E : Type ℓ) (A : Type κ) : Type (ℓ ⊔ κ) where
  ok : A → Result E A
  err : E → Result E A

-- `if err != nil { return fmt.Errorf("...: %w", err) }`
abbrev pub wrap {ℓ κ μ} : {E : Type ℓ} {F : Type κ} {A : Type μ} → (E → F) → Result E A → Result F A
wrap f (ok a) = ok a
wrap f (err e) = err (f e)

infixl 5 ◌>>=◌
abbrev pub ◌>>=◌ {ℓ κ μ} :
    {E : Type ℓ} {A : Type κ} {B : Type μ} → Result E A → (A → Result E B) → Result E B
ok a >>= f = f a
err e >>= f = err e

pub Result-cases {ℓ κ} :
    {E : Type ℓ} {A : Type κ} (m : Result E A) → ((a : A) × (m ≡ ok a)) ⊎ ((e : E) × (m ≡ err e))
Result-cases (ok a) = inl (a, refl)
Result-cases (err e) = inr (e, refl)

-- A chain that succeeds has a first step that succeeded.
pub first_ok {ℓ κ μ} :
    {E : Type ℓ} {A : Type κ} {B : Type μ} (first : Result E A) (next : A → Result E B) {b : B}
    → (first >>= next) ≡ ok b
    → (a : A) × (next a ≡ ok b)
first_ok (ok a) next e = (a, e)
first_ok (err failure) next e = cc

-- The same, with the answer of the first step.
pub ok_steps {ℓ κ μ} :
    {E : Type ℓ} {A : Type κ} {B : Type μ} (first : Result E A) (next : A → Result E B) {b : B}
    → (first >>= next) ≡ ok b
    → (a : A) × (first ≡ ok a) × (next a ≡ ok b)
ok_steps (ok a) next e = (a, refl, e)
ok_steps (err failure) next e = cc

abbrev pub ok_or {ℓ κ} : {E : Type ℓ} {A : Type κ} → A → Result E A → A
ok_or default (ok a) = a
ok_or default (err e) = default

abbrev pub err_or {ℓ κ} : {E : Type ℓ} {A : Type κ} → E → Result E A → E
err_or default (ok a) = default
err_or default (err e) = e

pub ok_wrapped {ℓ κ μ} :
    {E : Type ℓ} {F : Type κ} {A : Type μ} (f : E → F) (m : Result E A) {a : A}
    → wrap f m ≡ ok a
    → m ≡ ok a
ok_wrapped f (ok x) e = ap (λ r. ok (ok_or x r)) e
ok_wrapped f (err x) e = cc

-- What a guard that refuses, or requires, leaves when the chain succeeds.
pub not_refused {ℓ κ} :
    {E : Type ℓ} {A : Type κ} (b : Bool) (e : E) (m : Result E A) {a : A}
    → (if b then err e else m) ≡ ok a
    → (b ≡ false) × (m ≡ ok a)
not_refused true e m h = cc
not_refused false e m h = (refl, h)

pub required {ℓ κ} :
    {E : Type ℓ} {A : Type κ} (b : Bool) (e : E) (m : Result E A) {a : A}
    → (if b then m else err e) ≡ ok a
    → (b ≡ true) × (m ≡ ok a)
required true e m h = (refl, h)
required false e m h = cc

-- A chain that fails fails at its first step, or behind it.
pub err_steps {ℓ κ μ} :
    {E : Type ℓ} {A : Type κ} {B : Type μ} (first : Result E A) (next : A → Result E B) {e : E}
    → (first >>= next) ≡ err e
    → (first ≡ err e) ⊎ ((a : A) × (next a ≡ err e))
err_steps (ok a) next h = inr (a, h)
err_steps (err failure) next h = inl (ap (λ m. err (err_or failure m)) h)

pub err_wrapped {ℓ κ μ} :
    {E : Type ℓ} {F : Type κ} {A : Type μ} (f : E → F) (m : Result E A) {x : F}
    → wrap f m ≡ err x
    → (e : E) × (m ≡ err e) × (f e ≡ x)
err_wrapped f (ok a) h = cc
err_wrapped f (err e) h = (e, refl, ap (err_or (f e)) h)
