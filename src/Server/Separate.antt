-- ===== src/Server/Separate.antt =====
-- pkg/server/grpc_context.go and pkg/server/http_context.go: the nine kinds do not get into each other's
-- way.
use servermore.Base.{
  Bool, Bool-cases, List, Option, [], ap, false, if◌then◌else◌, inl, inr, map, none, refl, subst,
  sym, true, ◌∙◌, ◌∷◌, ◌≡◌,
}
use servermore.Server.ByKind.{
  get_kind-get_meta, key_eq→eq, read_as, read_as-none, read_as-value_of, run_set-set_meta,
  with_kind-with_meta_holder,
}
use servermore.Server.Context.{
  Context, Holders, Meta, MetaKey, get_meta, holder_of, key_eq, set_meta, with_meta_holder,
}
use servermore.Server.Handled.{get_meta-with_holders, last_set, set_all, with_holders}
use servermore.Server.Holding.{has_holder}
use servermore.Server.Kinds.{
  SetCall, get_kind, has_kind, kind_of, last_value, run_sets, value_of, with_kinds,
}

abbrev said : SetCall → MetaKey × Option Meta
said call = (kind_of call, value_of call)

run_sets-set_all :
    (calls : List SetCall) (ctx : Context) (holders : Holders)
    → run_sets calls ctx holders ≡ set_all (map said calls) ctx holders
unfolding run_sets set_all
run_sets-set_all [] ctx holders = refl
run_sets-set_all (call ∷ calls) ctx holders =
    ap (run_sets calls ctx) (run_set-set_meta call ctx holders)
    ∙ run_sets-set_all calls ctx (set_meta (kind_of call) (value_of call) ctx holders)

last_value-last_set :
    (k : MetaKey) (calls : List SetCall) (before : Option Meta)
    → last_set k (map said calls) before ≡ last_value k calls before
unfolding last_set last_value
last_value-last_set k [] before = refl
last_value-last_set k (call ∷ calls) before =
    last_value-last_set k calls (if key_eq (kind_of call) k then value_of call else before)

read_as-last_value :
    (k : MetaKey) (calls : List SetCall) (before : Option Meta)
    → read_as k before ≡ before
    → read_as k (last_value k calls before) ≡ last_value k calls before
unfolding last_value
read_as-last_value k [] before own = own
read_as-last_value k (call ∷ calls) before own = elim (Bool-cases (key_eq (kind_of call) k)) [
  | inl same ↦
      let now : read_as k (value_of call) ≡ value_of call =
        subst (λ j. read_as j (value_of call) ≡ value_of call) (key_eq→eq (kind_of call) k same)
          (read_as-value_of call) in
      rw same (read_as-last_value k calls (value_of call) now)
  | inr apart ↦ rw apart (read_as-last_value k calls before own)
]

with_kinds-with_holders : (keys : List MetaKey) → with_kinds keys ≡ with_holders keys
unfolding with_kinds with_holders
with_kinds-with_holders [] = refl
with_kinds-with_holders (k ∷ keys) =
    with_kind-with_meta_holder k (with_kinds keys)
    ∙ ap (with_meta_holder k) (with_kinds-with_holders keys)

has_holder-with_holders :
    (k : MetaKey) (keys : List MetaKey) → has_holder k ((with_holders keys).0) ≡ has_kind k keys
unfolding with_holders has_kind holder_of with_meta_holder
has_holder-with_holders k [] = refl
has_holder-with_holders k (j ∷ keys) = elim (Bool-cases (key_eq j k)) [
  | inl same ↦ rw same refl
  | inr apart ↦ rw apart (has_holder-with_holders k keys)
]

read_as-shown :
    (k : MetaKey) (calls : List SetCall) (has : Bool)
    → read_as k (if has then last_value k calls none else none)
      ≡ (if has then last_value k calls none else none)
read_as-shown k calls true = read_as-last_value k calls none (read_as-none k)
read_as-shown k calls false = read_as-none k

-- The same behind the middlewares of the keys, by the kind's own function.
told :
    (k : MetaKey) (keys : List MetaKey) (calls : List SetCall)
    → get_kind k
        ((with_holders keys).0)
        (run_sets calls ((with_holders keys).0) ((with_holders keys).1))
      ≡ (if has_kind k keys then last_value k calls none else none)
told k keys calls =
    let (ctx, holders) = with_holders keys in
    get_kind-get_meta k ctx (run_sets calls ctx holders)
    ∙ ap (λ h. read_as k (get_meta k ctx h)) (run_sets-set_all calls ctx holders)
    ∙ ap (read_as k) (get_meta-with_holders k keys (map said calls))
    ∙ ap (λ b. read_as k (if b then last_set k (map said calls) none else none))
        (has_holder-with_holders k keys)
    ∙ ap (λ v. read_as k (if has_kind k keys then v else none)) (last_value-last_set k calls none)
    ∙ read_as-shown k calls (has_kind k keys)

-- Behind any chain of middlewares, once a handler has called the functions that set the nine kinds any
-- number of times in any order, the function that gets a kind answers what was last set of that kind
-- with its own function, if the chain has its own middleware, and nothing otherwise.
pub get_kind-run_sets :
    (k : MetaKey) (keys : List MetaKey) (calls : List SetCall)
    → get_kind k ((with_kinds keys).0) (run_sets calls ((with_kinds keys).0) ((with_kinds keys).1))
      ≡ (if has_kind k keys then last_value k calls none else none)
get_kind-run_sets k keys calls =
    subst
      (λ r.
        get_kind k r.0 (run_sets calls r.0 r.1)
        ≡ (if has_kind k keys then last_value k calls none else none))
      (sym (with_kinds-with_holders keys)) (told k keys calls)
