-- ===== src/Tester/Log.antt =====
-- servermore-tester/setup.go: `rollingLog`. A `max` of zero is no bound.
use servermore.Base.{
  Bool, Bool-cases, List, [], ap, append_behind, append_nil, arith, false, if◌then◌else◌, inl, inr,
  length, length-behind, ltb, refl, suc, sym, true, zero, ℕ, ◌&&◌, ◌++◌, ◌+◌, ◌-◌, ◌<◌, ◌==◌, ◌||◌,
  ◌∙◌, ◌∷◌, ◌≡◌, ◌≤◌,
}
use servermore.Tester.Text.{is_blank}

pub record RollingLog : Type 0 where
  pub max : ℕ
  pub lines : List (List ℕ)

unfoldable pub drop {ℓ} : {A : Type ℓ} → ℕ → List A → List A
drop zero xs = xs
drop (suc n) [] = []
drop (suc n) (x ∷ xs) = drop n xs

unfoldable pub new_rolling_log : ℕ → RollingLog
new_rolling_log max = record { max = max; lines = [] }

abbrev pub is_line_end : ℕ → Bool
is_line_end b = (b == 13) || (b == 10)

-- `strings.TrimRight(line, "\r\n")`
unfoldable pub trim_line_end : List ℕ → List ℕ
trim_line_end [] = []
trim_line_end (b ∷ line) =
    let rest = trim_line_end line in
    elim rest [ [] ↦ if is_line_end b then [] else b ∷ [] | c ∷ others ↦ b ∷ c ∷ others ]

-- `copy(r.lines, r.lines[len(r.lines)-r.max:])` and `r.lines[:r.max]`: the last `max` lines.
unfoldable pub bounded : ℕ → List (List ℕ) → List (List ℕ)
bounded max lines =
    if ltb 0 max && ltb max (length lines) then drop (length lines - max) lines else lines

unfoldable pub add_line : List ℕ → RollingLog → RollingLog
unfolding bounded trim_line_end is_blank
add_line line log =
    if is_blank (trim_line_end line)
    then log
    else record log { lines = bounded log.max (log.lines ++ (trim_line_end line ∷ [])) }

unfoldable pub add_lines : List (List ℕ) → RollingLog → RollingLog
unfolding add_line
add_lines [] log = log
add_lines (line ∷ lines) log = add_lines lines (add_line line log)

-- The lines of a text that are kept.
unfoldable pub kept : List (List ℕ) → List (List ℕ)
unfolding trim_line_end is_blank
kept [] = []
kept (line ∷ lines) =
    let later = kept lines in
    if is_blank (trim_line_end line) then later else trim_line_end line ∷ later

drop-append {ℓ} :
    {A : Type ℓ} (n : ℕ) (xs ys : List A) → n ≤ length xs → drop n (xs ++ ys) ≡ drop n xs ++ ys
unfolding drop
drop-append zero xs ys low = refl
drop-append (suc n) [] ys low = absurd (omega arith)
drop-append (suc n) (x ∷ xs) ys low = drop-append n xs ys (omega arith)

drop-suc {ℓ} : {A : Type ℓ} (n : ℕ) (xs : List A) → drop 1 (drop n xs) ≡ drop (suc n) xs
unfolding drop
drop-suc zero [] = refl
drop-suc zero (x ∷ xs) = refl
drop-suc (suc n) [] = refl
drop-suc (suc n) (x ∷ xs) = drop-suc n xs

length-drop {ℓ} : {A : Type ℓ} (n : ℕ) (xs : List A) → length (drop n xs) ≡ length xs - n
unfolding drop
length-drop zero xs = omega arith
length-drop (suc n) [] = omega arith
length-drop (suc n) (x ∷ xs) = omega (arith, length-drop n xs)

length-bounded : (max : ℕ) (lines : List (List ℕ)) → 0 < max → length (bounded max lines) ≤ max
unfolding bounded
length-bounded max lines some_left = ground (arith, length-drop (length lines - max) lines)

bounded_over :
    (max k : ℕ) (lines : List (List ℕ))
    → 0 < max
    → length lines ≡ max + suc k
    → bounded max lines ≡ drop (suc k) lines
unfolding bounded
bounded_over max k lines some_left over =
    let full : (ltb 0 max && ltb max (length lines)) ≡ true = ground arith in
    let by : length lines - max ≡ suc k = omega arith in rw (full, by) refl

bounded_again :
    (max : ℕ) (lines : List (List ℕ)) (line : List ℕ)
    → bounded max (bounded max lines ++ (line ∷ [])) ≡ bounded max (lines ++ (line ∷ []))
unfolding bounded
bounded_again max lines line = elim (Bool-cases (ltb 0 max && ltb max (length lines))) [
  | inr few ↦ rw few refl
  | inl many ↦
      let some_left : 0 < max = ground arith in
      let more : max < length lines = ground arith in
      let k = length lines - max in
      let short : length (drop k lines ++ (line ∷ [])) ≡ max + 1 =
        omega (arith, length-drop k lines, length-behind (drop k lines) line) in
      let long : length (lines ++ (line ∷ [])) ≡ max + suc k =
        omega (arith, length-behind lines line) in
      let once : bounded max lines ≡ drop k lines = rw many refl in
      ap (λ xs. bounded max (xs ++ (line ∷ []))) once
      ∙ bounded_over max 0 (drop k lines ++ (line ∷ [])) some_left short
      ∙ ap (drop 1) (sym (drop-append k lines (line ∷ []) (omega arith)))
      ∙ drop-suc k (lines ++ (line ∷ []))
      ∙ sym (bounded_over max k (lines ++ (line ∷ [])) some_left long)
]

bounded_is :
    (max : ℕ) (lines : List (List ℕ))
    → 0 < max
    → bounded max lines ≡ drop (length lines - max) lines
unfolding bounded drop
bounded_is max lines some_left = elim (Bool-cases (ltb 0 max && ltb max (length lines))) [
  | inl many ↦ rw many refl
  | inr few ↦ let by : length lines - max ≡ 0 = ground arith in rw (few, by) refl
]

kept-nil : kept [] ≡ []
unfolding kept
kept-nil = refl

add_line-blank :
    (line : List ℕ) (log : RollingLog)
    → is_blank (trim_line_end line) ≡ true
    → add_line line log ≡ log
unfolding add_line
add_line-blank line log blank = rw blank refl

add_line-words :
    (line : List ℕ) (log : RollingLog)
    → is_blank (trim_line_end line) ≡ false
    → add_line line log
      ≡ record log { lines = bounded log.max (log.lines ++ (trim_line_end line ∷ [])) }
unfolding add_line
add_line-words line log words = rw words refl

kept-blank :
    (line : List ℕ) (lines : List (List ℕ))
    → is_blank (trim_line_end line) ≡ true
    → kept (line ∷ lines) ≡ kept lines
unfolding kept
kept-blank line lines blank = rw blank refl

kept-words :
    (line : List ℕ) (lines : List (List ℕ))
    → is_blank (trim_line_end line) ≡ false
    → kept (line ∷ lines) ≡ trim_line_end line ∷ kept lines
unfolding kept
kept-words line lines words = rw words refl

add_lines-bounded :
    (max : ℕ) (texts before : List (List ℕ))
    → (add_lines texts (record { max = max; lines = bounded max before })).lines
      ≡ bounded max (before ++ kept texts)
unfolding add_lines
add_lines-bounded max [] before =
    ap (bounded max) (sym (ap (λ xs. before ++ xs) kept-nil ∙ append_nil before))
add_lines-bounded max (text ∷ texts) before = elim (Bool-cases (is_blank (trim_line_end text))) [
  | inl blank ↦
      ap (λ log. (add_lines texts log).lines) (add_line-blank text _ blank)
      ∙ add_lines-bounded max texts before
      ∙ ap (λ xs. bounded max (before ++ xs)) (sym (kept-blank text texts blank))
  | inr words ↦
      ap (λ log. (add_lines texts log).lines) (add_line-words text _ words)
      ∙ ap (λ xs. (add_lines texts (record { max = max; lines = xs })).lines)
          (bounded_again max before (trim_line_end text))
      ∙ add_lines-bounded max texts (before ++ (trim_line_end text ∷ []))
      ∙ ap (bounded max) (append_behind before (trim_line_end text) (kept texts))
      ∙ ap (λ xs. bounded max (before ++ xs)) (sym (kept-words text texts words))
]

-- Whatever lines are added to a new log of `max` lines, with `max` not zero, it holds at most `max`
-- lines, and they are the last ones of all that are not blank, without their line ends, in order.
pub add_lines-IsBounded :
    (max : ℕ) (texts : List (List ℕ))
    → 0 < max
    → ((add_lines texts (new_rolling_log max)).lines
        ≡ drop (length (kept texts) - max) (kept texts))
      × (length ((add_lines texts (new_rolling_log max)).lines) ≤ max)
unfolding new_rolling_log bounded
add_lines-IsBounded max texts some_left =
    let empty : bounded max [] ≡ [] = ground arith in
    let all =
      ap (λ none_yet. (add_lines texts (record { max = max; lines = none_yet })).lines) (sym empty)
      ∙ add_lines-bounded max texts [] in
    (
      all ∙ bounded_is max (kept texts) some_left,
      rw all (length-bounded max (kept texts) some_left),
    )
