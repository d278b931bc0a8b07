-- ===== src/Tester/PortPrint.antt =====
-- servermore-tester/setup.go: `parsePublishedPort` reads what `docker port` prints.
use servermore.Base.{
  Bool-cases, List, [], ap, append_nil, arith, inl, inr, length, length-append, refl, some, sym,
  true, ℕ, ◌++◌, ◌<◌, ◌∙◌, ◌∷◌, ◌≡◌,
}
use servermore.Tester.Port.{
  NoSpace, colon, first_port, is_number, newline, or_later, parse_published_port, port_suffix,
  port_suffix-number, split_lines, split_lines-line, split_lines-whole, trim_left,
  trim_left-NoSpace, trim_right, trim_right-NoSpace, trimmed,
}
use servermore.Tester.Text.{is_blank}

trimmed_word :
    (word text : List ℕ)
    → NoSpace word
    → 0 < length word
    → trimmed (word ++ text) ≡ word ++ trim_right text
trimmed_word [] text nowhere some_left = absurd (omega arith)
trimmed_word (b ∷ word) text (first, nowhere) some_left =
    ap trim_left (trim_right-NoSpace (b ∷ word) text (first, nowhere))
    ∙ trim_left-NoSpace b (word ++ trim_right text) first

trimmed_whole : (word : List ℕ) → NoSpace word → 0 < length word → trimmed word ≡ word
unfolding trim_right
trimmed_whole word nowhere some_left =
    ap trimmed (sym (append_nil word)) ∙ trimmed_word word [] nowhere some_left ∙ append_nil word

NoSpace-append : (word text : List ℕ) → NoSpace word → NoSpace text → NoSpace (word ++ text)
NoSpace-append [] text nowhere there = there
NoSpace-append (b ∷ word) text (first, nowhere) there =
    (first, NoSpace-append word text nowhere there)

-- A text whose first line is a word with a port at its end.
first_port-word :
    (word port : List ℕ) (lines : List (List ℕ))
    → NoSpace word
    → 0 < length word
    → port_suffix word ≡ some port
    → first_port (word ∷ lines) ≡ some port
unfolding first_port
first_port-word word port lines nowhere some_left found =
    ap (λ w. or_later (port_suffix w) (first_port lines)) (trimmed_whole word nowhere some_left)
    ∙ ap (λ p. or_later p (first_port lines)) found

-- The lines of a text that has been trimmed behind its first word.
lines_behind :
    (word more : List ℕ)
    → NoSpace word
    → (lines : List (List ℕ)) × (split_lines (word ++ trim_right (newline ∷ more)) ≡ word ∷ lines)
unfolding trim_right
lines_behind word more nowhere = elim (Bool-cases (is_blank (newline ∷ more))) [
  | inl blank ↦ ([], rw blank (ap split_lines (append_nil word) ∙ split_lines-whole word nowhere))
  | inr words ↦
      (split_lines (trim_right more), rw words (split_lines-line word (trim_right more) nowhere))
]

-- What `docker port` prints, `<host>:<port>` in a line and any text behind it, is read back: the port
-- of the first line, if the host has no white space, as "0.0.0.0" and "[::]" have none, and the port is
-- digits.
pub parse_published_port-print :
    (host port more : List ℕ)
    → NoSpace host
    → NoSpace port
    → is_number port ≡ true
    → parse_published_port ((host ++ (colon ∷ port)) ++ (newline ∷ more)) ≡ some port
unfolding parse_published_port
parse_published_port-print host port more plain plain_port number =
    let word = host ++ (colon ∷ port) in
    let nowhere : NoSpace word = NoSpace-append host (colon ∷ port) plain (refl, plain_port) in
    let some_left : 0 < length word = omega (arith, length-append host (colon ∷ port)) in
    let (lines, split) = lines_behind word more nowhere in
    ap (λ t. first_port (split_lines t)) (trimmed_word word (newline ∷ more) nowhere some_left)
    ∙ ap first_port split
    ∙ first_port-word word port lines nowhere some_left (port_suffix-number host port number)
