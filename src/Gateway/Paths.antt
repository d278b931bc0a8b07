-- ===== src/Gateway/Paths.antt =====
-- The path and the headers that an instance is given.
use servermore.Base.{
  ==_iff, Bool-cases, List, Option, Option-cases, String, [], ap, eq_iff, inl, inr, none, refl,
  slash, some, str_cases, subst, sym, ℕ, ◌++◌, ◌==◌, ◌∙◌, ◌∷◌, ◌≡◌, ◌≢◌, ◌⊎◌,
}
use servermore.Base.Maps.{Map, get_or, lookup, lookup-insert}
use servermore.Gateway.{after_prefix, flatten_headers, forwarded_path, or_root}

pub after_prefix-append : (prefix text : List ℕ) → after_prefix prefix (prefix ++ text) ≡ some text
unfolding after_prefix
after_prefix-append [] text = refl
after_prefix-append (a ∷ prefix) text = rw ((==_iff a a).1 refl, after_prefix-append prefix text)

prefix_of :
    (prefix text rest : List ℕ) → after_prefix prefix text ≡ some rest → text ≡ prefix ++ rest
unfolding after_prefix
prefix_of [] text rest e = ap (get_or text) e
prefix_of (a ∷ prefix) [] rest e = cc
prefix_of (a ∷ prefix) (b ∷ text) rest e = elim (Bool-cases (a == b)) [
  | inl same ↦
      let a≡b = (==_iff a b).0 same in
      let later = prefix_of prefix text rest (rw same at e) in rw (← a≡b, later) refl
  | inr apart ↦ let impossible : none ≡ some rest = rw apart at e in cc
]

-- A path with a slash for one that is empty.
abbrev pub IsRooted : List ℕ → List ℕ → Type 0
IsRooted path rooted = ((path ≡ []) × (rooted ≡ slash ∷ [])) ⊎ ((path ≢ []) × (rooted ≡ path))

or_root-IsRooted : (path : List ℕ) → IsRooted path (or_root path)
or_root-IsRooted [] = inl (refl, refl)
or_root-IsRooted (b ∷ path) = inr ((λ e. cc), refl)

-- The path that an instance gets is what follows the function's id, or "/" where nothing does; a path
-- that does not begin with a slash and the id is left as it is, or "/" if it is empty.
pub forwarded_path_correct :
    (path function_id : List ℕ)
    → ((rest : List ℕ) × (path ≡ (slash ∷ function_id) ++ rest)
        × IsRooted rest (forwarded_path path function_id))
      ⊎ (((rest : List ℕ) → path ≢ (slash ∷ function_id) ++ rest)
          × IsRooted path (forwarded_path path function_id))
unfolding forwarded_path
forwarded_path_correct path function_id =
    elim (Option-cases (after_prefix (slash ∷ function_id) path)) [
      | inl absent ↦ inr (
        λ rest same.
            let found = after_prefix-append (slash ∷ function_id) rest in
            let again : after_prefix (slash ∷ function_id) path ≡ some rest = rw same found in cc,
        subst (λ o. IsRooted path (or_root (get_or path o))) (sym absent) (or_root-IsRooted path),
      )
      | inr (rest, found) ↦ inl (
        rest,
        prefix_of (slash ∷ function_id) path rest found,
        subst (λ o. IsRooted rest (or_root (get_or path o))) (sym found) (or_root-IsRooted rest),
      )
    ]

abbrev pub first_value : Option (List String) → Option String
first_value none = none
first_value (some []) = none
first_value (some (v ∷ vs)) = some v

-- No name stands twice.
abbrev pub IsMap : Map (List String) → Type 0
IsMap [] = Unit
IsMap ((k, v) ∷ h) = (lookup k h ≡ none) × IsMap h

-- The flattened headers hold, under each name, the first of its values, and nothing else.
pub lookup-flatten_headers :
    (h : Map (List String)) (name : String)
    → IsMap h
    → lookup name (flatten_headers h) ≡ first_value (lookup name h)
unfolding flatten_headers lookup
lookup-flatten_headers [] name h = refl
lookup-flatten_headers ((k, []) ∷ h) name (fresh, later) = elim (str_cases k name) [
  | inl same ↦ rw ((eq_iff k name).1 same) (
      lookup-flatten_headers h name later
      ∙ ap first_value (ap (λ n. lookup n h) (sym same) ∙ fresh))
  | inr apart ↦ rw apart (lookup-flatten_headers h name later)
]
lookup-flatten_headers ((k, v ∷ vs) ∷ h) name (fresh, later) =
    lookup-insert k name v (flatten_headers h) ∙ elim (str_cases k name) [
      | inl same ↦ rw ((eq_iff k name).1 same)
      | inr apart ↦ rw apart (lookup-flatten_headers h name later)
    ]
