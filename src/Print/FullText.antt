-- ===== src/Print/FullText.antt =====
-- src/snprintf.c: the text of a format with its arguments, as if the buffer had no end.
use separation_kernel.Prelude.{
  ℕ, zero, suc, ◌%◌, ◌^◌, true, false, not, Option, none, some, List, [], ◌∷◌, ◌++◌, ◌==◌,
  if◌then◌else◌,
}
use separation_kernel.Print.{Arg, word, text, number, read_width, percent, char_zero, space}

-- The bytes of a directive, with the arguments behind it, and the format.
abbrev pub Piece : Type 0
Piece = Option (List ℕ × List Arg)

abbrev pub word_piece : (ℕ → Option (List ℕ)) → List Arg → Piece
word_piece digits [] = none
word_piece digits (text s ∷ args) = none
word_piece digits (word n ∷ args) = elim (digits n) [
  | none ↦ none
  | some bytes ↦ some (bytes, args)
]

abbrev pub text_piece : List Arg → Piece
text_piece [] = none
text_piece (word n ∷ args) = none
text_piece (text s ∷ args) = some (s, args)

abbrev pub long_piece : (c padding padd_width : ℕ) → List Arg → Piece
long_piece c padding padd_width =
    if c == 100
    then word_piece (λ n. number 64 31 n true 10 padding padd_width)
    else if c == 117
    then word_piece (λ n. number 64 31 n false 10 padding padd_width)
    else if c == 120
    then word_piece (λ n. number 64 31 n false 16 padding padd_width)
    else λ args. none

abbrev pub with_rest : List ℕ → Piece → Option ((List ℕ × List Arg) × List ℕ)
with_rest rest none = none
with_rest rest (some p) = some (p, rest)

abbrev pub piece :
    (c padding padd_width : ℕ) → (rest : List ℕ) → List Arg → Option ((List ℕ × List Arg) × List ℕ)
piece c padding padd_width rest args =
    if c == 100
    then with_rest rest
        (word_piece (λ n. number 32 15 (n % 2 ^ 32) true 10 padding padd_width) args)
    else if c == 117
    then with_rest rest
        (word_piece (λ n. number 32 15 (n % 2 ^ 32) false 10 padding padd_width) args)
    else if c == 120
    then with_rest rest
        (word_piece (λ n. number 32 15 (n % 2 ^ 32) false 1 padding padd_width) args)
    else if c == 115
    then with_rest rest (text_piece args)
    else if c == 99
    then with_rest rest (word_piece (λ n. some ((n % 2 ^ 8) ∷ [])) args)
    else if c == percent
    then with_rest rest (some (percent ∷ [], args))
    else if c == 108
    then elim rest [
      | [] ↦ none
      | d ∷ rest' ↦ with_rest rest' (long_piece d padding padd_width args)
    ]
    else none

abbrev pub directive_piece : List ℕ → List Arg → Option ((List ℕ × List Arg) × List ℕ)
directive_piece [] args = none
directive_piece (c ∷ f) args =
    let padding = if c == char_zero then char_zero else space in
    let (padd_width, f') = read_width 0 (if c == char_zero then f else c ∷ f) in
    elim f' [ [] ↦ none | d ∷ rest ↦ piece d padding padd_width rest args ]

-- The text of a format with its arguments, as into a buffer without end.
unfoldable pub full_text : (fuel : ℕ) → (format : List ℕ) → List Arg → Option (List ℕ)
full_text zero format args = none
full_text (suc fuel) [] args = some []
full_text (suc fuel) (c ∷ f) args =
    let plain : Option (List ℕ) = elim (full_text fuel f args) [
      | none ↦ none
      | some rest ↦ some (c ∷ rest)
    ] in
    let special : Option (List ℕ) = elim (directive_piece f args) [
      | none ↦ none
      | some ((bytes, args'), f') ↦ elim (full_text fuel f' args') [
        | none ↦ none
        | some rest ↦ some (bytes ++ rest)
      ]
    ] in
    if not (c == percent) then plain else special
