-- ===== src/Tester/Text.antt =====
-- servermore-tester: the texts and numbers that its parts share. A text is its bytes; the white space
-- is that of ASCII.
use servermore.Base.{
  Bool, List, [], false, if◌then◌else◌, leb, length, ltb, suc, true, zero, ℕ, ◌&&◌, ◌++◌, ◌-◌, ◌==◌,
  ◌||◌, ◌∷◌,
}

abbrev pub smaller_int : ℕ → ℕ → ℕ
smaller_int a b = if ltb a b then a else b

abbrev pub larger_int : ℕ → ℕ → ℕ
larger_int a b = if ltb b a then a else b

abbrev pub clamp_int : ℕ → ℕ → ℕ → ℕ
clamp_int value min_value max_value =
    if ltb value min_value then min_value else (if ltb max_value value then max_value else value)

abbrev pub space : ℕ
space = 32

abbrev pub full_stop : ℕ
full_stop = 46

-- `unicode.IsSpace` on ASCII.
abbrev pub is_space : ℕ → Bool
is_space b = (b == space) || (leb 9 b && leb b 13)

abbrev pub is_empty : List ℕ → Bool
is_empty [] = true
is_empty (b ∷ text) = false

-- `strings.TrimSpace(text) == ""`
unfoldable pub is_blank : List ℕ → Bool
is_blank [] = true
is_blank (b ∷ text) = is_space b && is_blank text

abbrev grow : ℕ → List (List ℕ) → List (List ℕ)
grow b [] = (b ∷ []) ∷ []
grow b (word ∷ words) = (b ∷ word) ∷ words

abbrev word_break : List (List ℕ) → List (List ℕ)
word_break [] = []
word_break ([] ∷ words) = [] ∷ words
word_break (word ∷ words) = [] ∷ word ∷ words

-- The words behind a byte; an empty first word says that a break comes first.
unfoldable pub pieces : List ℕ → List (List ℕ)
pieces [] = []
pieces (b ∷ text) = let rest = pieces text in if is_space b then word_break rest else grow b rest

abbrev drop_break : List (List ℕ) → List (List ℕ)
drop_break ([] ∷ words) = words
drop_break words = words

-- `strings.Fields`
unfoldable pub fields_of : List ℕ → List (List ℕ)
fields_of text = drop_break (pieces text)

-- `strings.Join(words, " ")`
unfoldable pub join_words : List (List ℕ) → List ℕ
join_words [] = []
join_words (word ∷ []) = word
join_words (word ∷ next ∷ words) = word ++ (space ∷ join_words (next ∷ words))

unfoldable pub take {ℓ} : {A : Type ℓ} → ℕ → List A → List A
take zero xs = []
take (suc n) [] = []
take (suc n) (x ∷ xs) = x ∷ take n xs

abbrev pub cleaned : List ℕ → List ℕ
cleaned text = join_words (fields_of text)

-- `compactText`
unfoldable pub compact_text : List ℕ → ℕ → List ℕ
compact_text text max_len =
    if leb (length (cleaned text)) max_len
    then cleaned text
    else (if ltb max_len 4
        then take max_len (cleaned text)
        else take (max_len - 3) (cleaned text) ++ (full_stop ∷ full_stop ∷ full_stop ∷ []))
