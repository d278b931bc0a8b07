-- ===== src/Tester/Port.antt =====
-- servermore-tester/setup.go: `parsePublishedPort`, on bytes.
use servermore.Base.{
  All, Bool, List, Option, [], arith, false, if◌then◌else◌, leb, none, refl, some, true, ℕ, ◌&&◌,
  ◌++◌, ◌==◌, ◌∷◌, ◌≡◌,
}
use servermore.Tester.Text.{is_blank, is_space}

abbrev pub colon : ℕ
colon = 58

abbrev pub newline : ℕ
newline = 10

abbrev pub is_digit : ℕ → Bool
is_digit b = leb 48 b && leb b 57

-- `\d+` up to the end.
unfoldable pub all_digits : List ℕ → Bool
all_digits [] = true
all_digits (b ∷ text) = is_digit b && all_digits text

abbrev pub is_number : List ℕ → Bool
is_number [] = false
is_number (b ∷ text) = is_digit b && all_digits text

-- The group of the first match of `:(\d+)$`.
unfoldable pub port_suffix : List ℕ → Option (List ℕ)
port_suffix [] = none
port_suffix (b ∷ text) =
    let later = port_suffix text in if (b == colon) && is_number text then some text else later

unfoldable pub trim_right : List ℕ → List ℕ
unfolding is_blank
trim_right [] = []
trim_right (b ∷ text) = let rest = trim_right text in if is_blank (b ∷ text) then [] else b ∷ rest

unfoldable pub trim_left : List ℕ → List ℕ
trim_left [] = []
trim_left (b ∷ text) = let rest = trim_left text in if is_space b then rest else b ∷ text

-- `strings.TrimSpace`
abbrev pub trimmed : List ℕ → List ℕ
trimmed text = trim_left (trim_right text)

abbrev pub onto_first : ℕ → List (List ℕ) → List (List ℕ)
onto_first b [] = (b ∷ []) ∷ []
onto_first b (line ∷ lines) = (b ∷ line) ∷ lines

-- `strings.Split(text, "\n")`
unfoldable pub split_lines : List ℕ → List (List ℕ)
split_lines [] = [] ∷ []
split_lines (b ∷ text) =
    let rest = split_lines text in if b == newline then [] ∷ rest else onto_first b rest

abbrev pub or_later : Option (List ℕ) → Option (List ℕ) → Option (List ℕ)
or_later (some port) later = some port
or_later none later = later

-- An empty line has no match.
unfoldable pub first_port : List (List ℕ) → Option (List ℕ)
unfolding port_suffix trim_left trim_right
first_port [] = none
first_port (line ∷ lines) = or_later (port_suffix (trimmed line)) (first_port lines)

unfoldable pub parse_published_port : List ℕ → Option (List ℕ)
unfolding first_port split_lines trim_left trim_right
parse_published_port output = first_port (split_lines (trimmed output))

abbrev pub NoSpace : List ℕ → Type 0
NoSpace text = All (λ b. is_space b ≡ false) text

is_blank-NoSpace : (b : ℕ) (text : List ℕ) → is_space b ≡ false → is_blank (b ∷ text) ≡ false
unfolding is_blank
is_blank-NoSpace b text word = rw word refl

pub trim_right-NoSpace :
    (word text : List ℕ) → NoSpace word → trim_right (word ++ text) ≡ word ++ trim_right text
unfolding trim_right
trim_right-NoSpace [] text nowhere = refl
trim_right-NoSpace (b ∷ word) text (first, nowhere) =
    rw (is_blank-NoSpace b (word ++ text) first, trim_right-NoSpace word text nowhere) refl

pub trim_left-NoSpace :
    (b : ℕ) (text : List ℕ) → is_space b ≡ false → trim_left (b ∷ text) ≡ b ∷ text
unfolding trim_left
trim_left-NoSpace b text word = rw word refl

pub split_lines-line :
    (word text : List ℕ)
    → NoSpace word
    → split_lines (word ++ (newline ∷ text)) ≡ word ∷ split_lines text
unfolding split_lines
split_lines-line [] text nowhere = refl
split_lines-line (b ∷ word) text (first, nowhere) =
    let apart : (b == newline) ≡ false = ground arith in
    rw (apart, split_lines-line word text nowhere) refl

pub split_lines-whole : (word : List ℕ) → NoSpace word → split_lines word ≡ word ∷ []
unfolding split_lines
split_lines-whole [] nowhere = refl
split_lines-whole (b ∷ word) (first, nowhere) =
    let apart : (b == newline) ≡ false = ground arith in
    rw (apart, split_lines-whole word nowhere) refl

not_digits : (host port : List ℕ) → all_digits (host ++ (colon ∷ port)) ≡ false
unfolding all_digits
not_digits [] port = refl
not_digits (b ∷ host) port = rw (not_digits host port) (ground arith)

not_number : (host port : List ℕ) → is_number (host ++ (colon ∷ port)) ≡ false
not_number [] port = refl
not_number (b ∷ host) port = rw (not_digits host port) (ground arith)

pub port_suffix-number :
    (host port : List ℕ) → is_number port ≡ true → port_suffix (host ++ (colon ∷ port)) ≡ some port
unfolding port_suffix
port_suffix-number [] port number = rw number refl
port_suffix-number (b ∷ host) port number =
    let other : ((b == colon) && is_number (host ++ (colon ∷ port))) ≡ false =
      rw (not_number host port) (ground arith) in
    rw (other, port_suffix-number host port number) refl
