-- ===== src/Server/Handled.antt =====
-- pkg/server/grpc_context.go and pkg/server/http_context.go: a handler behind a chain of middlewares.
use servermore.Base.{
  All, Bool-cases, List, Option, Option-cases, [], arith, get_elem?, if◌then◌else◌, inl, inr,
  length, length-behind, length-modify, none, refl, suc, zero, ℕ, ◌++◌, ◌∷◌, ◌≡◌, ◌≤◌,
}
use servermore.Base.Maps.{get_or}
use servermore.Server.Context.{
  Context, Holders, Meta, MetaKey, get_meta, holder_of, key_eq, set_meta, with_meta_holder,
}
use servermore.Server.Holding.{IsFresh, get_meta-set_other, get_meta-set_same, has_holder}

-- The contexts that middlewares make, the innermost one first.
unfoldable pub with_holders : List MetaKey → Context × Holders
unfolding with_meta_holder
with_holders [] = ([], [])
with_holders (k ∷ keys) = with_meta_holder k (with_holders keys)

-- What a handler sets, the first one first.
unfoldable pub set_all : List (MetaKey × Option Meta) → Context → Holders → Holders
unfolding set_meta
set_all [] ctx holders = holders
set_all ((k, meta) ∷ sets) ctx holders = set_all sets ctx (set_meta k meta ctx holders)

-- The last of them of a kind, or what was there before.
unfoldable pub last_set : MetaKey → List (MetaKey × Option Meta) → Option Meta → Option Meta
last_set k [] before = before
last_set k ((j, meta) ∷ sets) before = last_set k sets (if key_eq j k then meta else before)

with_holders-IsFresh :
    (keys : List MetaKey) → IsFresh (length ((with_holders keys).1)) ((with_holders keys).0)
unfolding with_holders
with_holders-IsFresh [] = tt
with_holders-IsFresh (k ∷ keys) =
    (omega (arith, length-behind ((with_holders keys).1) none), with_holders-IsFresh keys)

held-nothing :
    (holders : Holders) (i : ℕ)
    → All (λ meta. meta ≡ none) holders
    → get_or none (get_elem? holders i) ≡ none
unfolding get_elem?
held-nothing [] i empty = refl
held-nothing (meta ∷ holders) zero (first, empty) = first
held-nothing (meta ∷ holders) (suc i) (first, empty) = held-nothing holders i empty

All-behind :
    (holders : Holders)
    → All (λ meta. meta ≡ none) holders
    → All (λ meta. meta ≡ none) (holders ++ (none ∷ []))
All-behind [] empty = (refl, tt)
All-behind (meta ∷ holders) (first, empty) = (first, All-behind holders empty)

with_holders-empty : (keys : List MetaKey) → All (λ meta. meta ≡ none) ((with_holders keys).1)
unfolding with_holders
with_holders-empty [] = tt
with_holders-empty (k ∷ keys) = All-behind ((with_holders keys).1) (with_holders-empty keys)

get_meta-nothing :
    (k : MetaKey) (ctx : Context) (holders : Holders)
    → All (λ meta. meta ≡ none) holders
    → get_meta k ctx holders ≡ none
unfolding get_meta
get_meta-nothing k ctx holders empty = elim (Option-cases (holder_of k ctx)) [
  | inl nowhere ↦ rw nowhere refl
  | inr (a, at_a) ↦ rw at_a (held-nothing holders a empty)
]

length-set_meta :
    (k : MetaKey) (meta : Option Meta) (ctx : Context) (holders : Holders)
    → length (set_meta k meta ctx holders) ≡ length holders
unfolding set_meta
length-set_meta k meta ctx holders = elim (Option-cases (holder_of k ctx)) [
  | inl nowhere ↦ rw nowhere refl
  | inr (a, at_a) ↦ rw at_a (length-modify a (λ old. meta) holders)
]

get_meta-set_all :
    (n : ℕ) (k : MetaKey) (sets : List (MetaKey × Option Meta)) (ctx : Context) (holders : Holders)
    → IsFresh n ctx
    → n ≤ length holders
    → get_meta k ctx (set_all sets ctx holders) ≡ (
        if has_holder k ctx
        then last_set k sets (get_meta k ctx holders)
        else get_meta k ctx holders)
unfolding set_all last_set
get_meta-set_all n k [] ctx holders fresh low = elim (Bool-cases (has_holder k ctx)) [
  | inl here_it ↦ rw here_it refl
  | inr nowhere ↦ rw nowhere refl
]
get_meta-set_all n k ((j, meta) ∷ sets) ctx holders fresh low =
    let long : n ≤ length (set_meta j meta ctx holders) =
      omega (arith, length-set_meta j meta ctx holders) in
    let later = get_meta-set_all n k sets ctx (set_meta j meta ctx holders) fresh long in
    elim (Bool-cases (key_eq j k)) [
      | inr apart ↦
          let kept_it = get_meta-set_other n j k meta ctx holders fresh apart in
          rw apart (rw kept_it at later)
      | inl same ↦
          let stored_it = get_meta-set_same n j k meta ctx holders fresh low same in
          elim (Bool-cases (has_holder k ctx)) [
            | inl has ↦ rw (same, has) (rw (stored_it, has) at later)
            | inr lacks ↦ rw (same, lacks) (rw (stored_it, lacks) at later)
          ]
    ]

-- Behind any chain of middlewares, once a handler has set any kinds any number of times, the logs get
-- of a kind what was set of it last, if the chain has its middleware, and nothing of it otherwise: no
-- kind ever shows what was set of another.
pub get_meta-with_holders :
    (k : MetaKey) (keys : List MetaKey) (sets : List (MetaKey × Option Meta))
    → get_meta k
        ((with_holders keys).0)
        (set_all sets ((with_holders keys).0) ((with_holders keys).1))
      ≡ (if has_holder k ((with_holders keys).0) then last_set k sets none else none)
get_meta-with_holders k keys sets =
    let (ctx, holders) = with_holders keys in
    let nothing = get_meta-nothing k ctx holders (with_holders-empty keys) in
    let all =
      get_meta-set_all (length holders) k sets ctx holders (with_holders-IsFresh keys)
        (omega arith) in
    rw nothing at all
