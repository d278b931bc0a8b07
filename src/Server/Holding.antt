-- ===== src/Server/Holding.antt =====
-- pkg/server/grpc_context.go and pkg/server/http_context.go: what a handler sets is what the logs get.
use servermore.Base.{
  Bool, Bool-cases, Option, Option-cases, [], ap, arith, false, get_elem?-modify_ne,
  get_elem?-modify_self, if◌then◌else◌, inl, inr, length, lt-get_elem?, none, refl, some, true, ℕ,
  ◌<◌, ◌∷◌, ◌≡◌, ◌≢◌, ◌≤◌,
}
use servermore.Base.Maps.{get_or, is_some}
use servermore.Server.Context.{
  Context, Holders, Meta, MetaKey, get_meta, held, holder_of, key_eq, set_held, set_meta,
}

-- Each holder was allocated behind those of the contexts around it.
abbrev pub IsFresh : ℕ → Context → Type 0
IsFresh n [] = Unit
IsFresh n ((k, holder) ∷ ctx) = (holder < n) × IsFresh holder ctx

holder_of-lt :
    (n : ℕ) (k : MetaKey) (ctx : Context) (holder : ℕ)
    → IsFresh n ctx
    → holder_of k ctx ≡ some holder
    → holder < n
unfolding holder_of
holder_of-lt n k [] holder fresh e = cc
holder_of-lt n k ((j, first) ∷ ctx) holder (below, outer) e = elim (Bool-cases (key_eq j k)) [
  | inl same ↦ let it : first ≡ holder = ap (get_or first) (rw same at e) in omega arith
  | inr apart ↦ let further = holder_of-lt first k ctx holder outer (rw apart at e) in omega arith
]

-- Holders under different keys are different.
holder_of-apart :
    (n : ℕ) (j k : MetaKey) (ctx : Context) (a b : ℕ)
    → IsFresh n ctx
    → holder_of j ctx ≡ some a
    → holder_of k ctx ≡ some b
    → key_eq j k ≡ false
    → a ≢ b
unfolding holder_of
holder_of-apart n j k [] a b fresh ej ek apart same = cc
holder_of-apart n j k ((i, first) ∷ ctx) a b (below, outer) ej ek apart same =
    elim (Bool-cases (key_eq i j)) [
      | inl first_j ↦ elim (Bool-cases (key_eq i k)) [
        | inl first_k ↦ ground arith
        | inr other_k ↦
            let it : first ≡ a = ap (get_or first) (rw first_j at ej) in
            let further = holder_of-lt first k ctx b outer (rw other_k at ek) in omega arith
      ]
      | inr other_j ↦ elim (Bool-cases (key_eq i k)) [
        | inl first_k ↦
            let it : first ≡ b = ap (get_or first) (rw first_k at ek) in
            let further = holder_of-lt first j ctx a outer (rw other_j at ej) in omega arith
        | inr other_k ↦
            holder_of-apart first j k ctx a b outer (rw other_j at ej) (rw other_k at ek) apart same
      ]
    ]

held-set_held :
    (holder : ℕ) (meta : Option Meta) (holders : Holders)
    → holder < length holders
    → held (some holder) (set_held (some holder) meta holders) ≡ meta
held-set_held holder meta holders below =
    let (old, found) = lt-get_elem? holders holder below in
    ap (get_or none) (get_elem?-modify_self holder (λ o. meta) holders old found)

-- The context has a holder for this kind.
abbrev pub has_holder : MetaKey → Context → Bool
has_holder k ctx = is_some (holder_of k ctx)

pub get_meta-set_other :
    (n : ℕ) (j k : MetaKey) (meta : Option Meta) (ctx : Context) (holders : Holders)
    → IsFresh n ctx
    → key_eq j k ≡ false
    → get_meta k ctx (set_meta j meta ctx holders) ≡ get_meta k ctx holders
unfolding get_meta set_meta
get_meta-set_other n j k meta ctx holders fresh apart = elim (Option-cases (holder_of j ctx)) [
  | inl nowhere ↦ rw nowhere refl
  | inr (a, at_a) ↦ elim (Option-cases (holder_of k ctx)) [
    | inl nowhere ↦ rw nowhere refl
    | inr (b, at_b) ↦
        rw (at_a, at_b)
          (ap (get_or none) (
            get_elem?-modify_ne a b (λ o. meta) holders
              (holder_of-apart n j k ctx a b fresh at_a at_b apart)))
  ]
]

holder_of-same :
    (j k : MetaKey) (ctx : Context) → key_eq j k ≡ true → holder_of j ctx ≡ holder_of k ctx
unfolding holder_of
holder_of-same j k [] same = refl
holder_of-same j k ((i, first) ∷ ctx) same = let later = holder_of-same j k ctx same in ground arith

pub get_meta-set_same :
    (n : ℕ) (j k : MetaKey) (meta : Option Meta) (ctx : Context) (holders : Holders)
    → IsFresh n ctx
    → n ≤ length holders
    → key_eq j k ≡ true
    → get_meta k ctx (set_meta j meta ctx holders)
      ≡ (if has_holder k ctx then meta else get_meta k ctx holders)
unfolding get_meta set_meta
get_meta-set_same n j k meta ctx holders fresh low same =
    let moved = holder_of-same j k ctx same in
    elim (Option-cases (holder_of k ctx)) [
      | inl nowhere ↦ rw (moved, nowhere) refl
      | inr (a, at_a) ↦
          rw (moved, at_a)
            (held-set_held a meta holders
              (let below = holder_of-lt n k ctx a fresh at_a in omega arith))
    ]
