-- ===== src/Print/Pieces.antt =====
-- src/snprintf.c: a directive puts the bytes of its piece into a buffer that is not full.
use separation_kernel.Prelude.{
  ℕ, suc, ◌%◌, ◌^◌, ◌≡◌, refl, Bool, true, false, Option, none, some, List, [], ◌∷◌, ◌==◌,
  if◌then◌else◌, arith,
}
use separation_kernel.Print.{
  Arg, word, text, Buffer, put_char, output_str, output64, output32, number, next_word, next_text,
  convert_long, convert, directive, read_width, percent, char_zero, space, word64, word32, word8,
}
use separation_kernel.Print.FullText.{
  Piece, word_piece, text_piece, long_piece, with_rest, piece, directive_piece,
}

abbrev pub buffer : (written : List ℕ) (room : ℕ) → Buffer
buffer written room = record { written = written; room = room }

-- The bytes of a piece are put into the buffer.
abbrev pub into : Buffer → Option (List ℕ) → Option Buffer
into b none = none
into b (some s) = some (output_str b s)

abbrev pub into_piece : Buffer → Piece → Option (Buffer × List Arg)
into_piece b none = none
into_piece b (some (s, args)) = some (output_str b s, args)

abbrev pub into_rest :
    Buffer → Option ((List ℕ × List Arg) × List ℕ) → Option ((Buffer × List Arg) × List ℕ)
into_rest b none = none
into_rest b (some ((s, args), f)) = some ((output_str b s, args), f)

output64-into :
    (b : Buffer) (n : ℕ) (sig : Bool) (base padding padd_width : ℕ)
    → output64 b n sig base padding padd_width ≡ into b (number 64 31 n sig base padding padd_width)
unfolding output64
output64-into b n sig base padding padd_width = ground arith

output32-into :
    (b : Buffer) (n : ℕ) (sig : Bool) (base padding padd_width : ℕ)
    → output32 b n sig base padding padd_width ≡ into b (number 32 15 n sig base padding padd_width)
unfolding output32
output32-into b n sig base padding padd_width = ground arith

next_word-into :
    (print : Buffer → ℕ → Option Buffer) (digits : ℕ → Option (List ℕ)) (b : Buffer)
    (args : List Arg)
    → ((n : ℕ) → print b n ≡ into b (digits n))
    → next_word print b args ≡ into_piece b (word_piece digits args)
unfolding next_word
next_word-into print digits b [] h = refl
next_word-into print digits b (text s ∷ args) h = refl
next_word-into print digits b (word n ∷ args) h = ground (arith, h n)

next_text-into : (b : Buffer) (args : List Arg) → next_text b args ≡ into_piece b (text_piece args)
unfolding next_text
next_text-into b [] = refl
next_text-into b (word n ∷ args) = refl
next_text-into b (text s ∷ args) = refl

if-into :
    {A B : Type 0} (f : A → B) (t : Bool) {x y : B} (x' y' : A)
    → x ≡ f x'
    → y ≡ f y'
    → (if t then x else y) ≡ f (if t then x' else y')
if-into f true x' y' h h' = h
if-into f false x' y' h h' = h'

if-into_at :
    {A B C : Type 0} (f : A → B) (t : Bool) {x y : B} (x' y' : C → A) (c : C)
    → x ≡ f (x' c)
    → y ≡ f (y' c)
    → (if t then x else y) ≡ f ((if t then x' else y') c)
if-into_at f true x' y' c h h' = h
if-into_at f false x' y' c h h' = h'

convert_long-into :
    (c padding padd_width : ℕ) (b : Buffer) (args : List Arg)
    → convert_long c padding padd_width b args ≡ into_piece b (long_piece c padding padd_width args)
unfolding convert_long
convert_long-into c padding padd_width b args =
    let print = λ (sig : Bool) (base : ℕ).
      next_word-into (word64 sig base padding padd_width)
        (λ n. number 64 31 n sig base padding padd_width) b args
        (λ n. output64-into b n sig base padding padd_width) in
    if-into_at (into_piece b) (c == 100) _ _ args (print true 10) (
      if-into_at (into_piece b) (c == 117) _ _ args (print false 10)
        (if-into_at (into_piece b) (c == 120) _ _ args (print false 16) refl))

then_rest-into :
    (b : Buffer) (rest : List ℕ) (o : Option (Buffer × List Arg)) (p : Piece)
    → o ≡ into_piece b p
    → elim o as (λ _. Option ((Buffer × List Arg) × List ℕ)) [
      | none ↦ none
      | some r ↦ some (r, rest)
    ]
      ≡ into_rest b (with_rest rest p)
then_rest-into b rest o p h = ground arith

convert-into :
    (c padding padd_width : ℕ) (rest : List ℕ) (w : List ℕ) (r : ℕ) (args : List Arg)
    → convert c padding padd_width rest (buffer w (suc r)) args
      ≡ into_rest (buffer w (suc r)) (piece c padding padd_width rest args)
unfolding convert put_char output_str
convert-into c padding padd_width rest w r args =
    let b = buffer w (suc r) in
    let print = λ (sig : Bool) (base : ℕ). then_rest-into b rest _ _ (
      next_word-into (word32 sig base padding padd_width)
        (λ n. number 32 15 (n % 2 ^ 32) sig base padding padd_width) b args
        (λ n. output32-into b (n % 2 ^ 32) sig base padding padd_width)) in
    if-into (into_rest b) (c == 100) _ _ (print true 10) (
      if-into (into_rest b) (c == 117) _ _ (print false 10) (
        if-into (into_rest b) (c == 120) _ _ (print false 1) (
          if-into (into_rest b) (c == 115) _ _ (then_rest-into b rest _ _ (next_text-into b args)) (
            if-into (into_rest b) (c == 99) _ _
              (then_rest-into b rest _ _
                (next_word-into word8 (λ n. some ((n % 2 ^ 8) ∷ [])) b args (λ n. refl)))
              (if-into (into_rest b) (c == percent) _ _ refl
                (if-into (into_rest b) (c == 108) _ _ (long rest) refl))))))
  where
    long :
        (f : List ℕ)
        → elim f as (λ _. Option ((Buffer × List Arg) × List ℕ)) [
          | [] ↦ none
          | d ∷ rest' ↦ elim (convert_long d padding padd_width (buffer w (suc r)) args) [
            | none ↦ none
            | some p ↦ some (p, rest')
          ]
        ]
          ≡ into_rest (buffer w (suc r)) (elim f [
            | [] ↦ none
            | d ∷ rest' ↦ with_rest rest' (long_piece d padding padd_width args)
          ])
    long [] = refl
    long (d ∷ rest') =
        then_rest-into (buffer w (suc r)) rest' _ _
          (convert_long-into d padding padd_width (buffer w (suc r)) args)

pub directive-into :
    (f w : List ℕ) (r : ℕ) (args : List Arg)
    → directive f (buffer w (suc r)) args ≡ into_rest (buffer w (suc r)) (directive_piece f args)
unfolding directive
directive-into [] w r args = refl
directive-into (c ∷ f) w r args =
    let padding = if c == char_zero then char_zero else space in
    let (padd_width, f') = read_width 0 (if c == char_zero then f else c ∷ f) in
    at_rest padding padd_width f'
  where
    at_rest :
        (padding padd_width : ℕ) (f' : List ℕ)
        → elim f' as (λ _. Option ((Buffer × List Arg) × List ℕ)) [
          | [] ↦ none
          | d ∷ rest ↦ convert d padding padd_width rest (buffer w (suc r)) args
        ]
          ≡ into_rest
              (buffer w (suc r))
              (elim f' [ [] ↦ none | d ∷ rest ↦ piece d padding padd_width rest args ])
    at_rest padding padd_width [] = refl
    at_rest padding padd_width (d ∷ rest) = convert-into d padding padd_width rest w r args
