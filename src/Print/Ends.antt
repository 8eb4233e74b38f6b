-- ===== src/Print/Ends.antt =====
-- src/snprintf.c: what a directive prints leaves the end of the buffer where it is.
use separation_kernel.Prelude.{
  ℕ, zero, suc, ◌+◌, ◌%◌, ◌^◌, ◌≡◌, refl, ◌∙◌, Bool, true, false, Option, none, some, List, [], ◌∷◌,
  ◌++◌, ◌==◌, if◌then◌else◌, arith,
}
use separation_kernel.Print.{
  Arg, word, text, Buffer, put_char, output_str, output64, output32, number, word64, word32, word8,
  next_word, next_text, convert_long, convert, length, percent,
}

-- The bytes up to `ebuf`.
abbrev pub capacity : Buffer → ℕ
capacity b = length b.written + b.room

length-append : (xs : List ℕ) (c : ℕ) → length (xs ++ c ∷ []) ≡ suc (length xs)
length-append [] c = refl
length-append (x ∷ xs) c = ground (arith, length-append xs c)

-- What an operation gives back, if anything, has the property.
abbrev pub All : {A : Type 0} → (A → Type 0) → Option A → Type 0
All P none = Unit {0}
All P (some a) = P a

pub bind-All :
    {A B : Type 0} (P : A → Type 0) (Q : B → Type 0) (o : Option A) (f : A → Option B)
    → All P o
    → ((a : A) → P a → All Q (f a))
    → All Q (elim o as (λ _. Option B) [ none ↦ none | some a ↦ f a ])
bind-All P Q none f h rest = tt
bind-All P Q (some a) f h rest = rest a h

pub if-All :
    {A : Type 0} (P : A → Type 0) (c : Bool) (o o' : Option A)
    → All P o
    → All P o'
    → All P (if c then o else o')
if-All P true o o' h h' = h
if-All P false o o' h h' = h'

-- The buffer ends where it did.
abbrev pub Ends : ℕ → Buffer → Type 0
Ends n b = capacity b ≡ n

abbrev pub EndsArgs : ℕ → Buffer × List Arg → Type 0
EndsArgs n (b, args) = capacity b ≡ n

abbrev pub EndsRest : ℕ → (Buffer × List Arg) × List ℕ → Type 0
EndsRest n ((b, args), rest) = capacity b ≡ n

pub put_char-Ends : (b : Buffer) (c : ℕ) → All (Ends (capacity b)) (put_char b c)
unfolding put_char
put_char-Ends b c = at_room b.written b.room
  where
    at_room :
        (w : List ℕ) (room : ℕ)
        → All (Ends (length w + room)) (put_char (record { written = w; room = room }) c)
    at_room w zero = tt
    at_room w (suc room) = ground (arith, length-append w c)

output_str-Ends : (s : List ℕ) (b : Buffer) → Ends (capacity b) (output_str b s)
unfolding output_str
output_str-Ends s b = at_room s b.written b.room
  where
    at_room :
        (s w : List ℕ) (room : ℕ)
        → capacity (output_str (record { written = w; room = room }) s) ≡ length w + room
    at_room [] w room = refl
    at_room (c ∷ s) w zero = refl
    at_room (c ∷ s) w (suc room) = at_room s (w ++ c ∷ []) room ∙ ground (arith, length-append w c)

-- The same, whatever comes first.
pub then-All :
    {A B : Type 0} (Q : B → Type 0) (o : Option A) (f : A → Option B)
    → ((a : A) → All Q (f a))
    → All Q (elim o as (λ _. Option B) [ none ↦ none | some a ↦ f a ])
then-All Q none f rest = tt
then-All Q (some a) f rest = rest a

output64-Ends :
    (sig : Bool) (base padding padd_width : ℕ) (b : Buffer) (n : ℕ)
    → All (Ends (capacity b)) (output64 b n sig base padding padd_width)
unfolding output64
output64-Ends sig base padding padd_width b n =
    then-All (Ends (capacity b)) (number 64 31 n sig base padding padd_width) _
      (λ s. output_str-Ends s b)

output32-Ends :
    (sig : Bool) (base padding padd_width : ℕ) (b : Buffer) (n : ℕ)
    → All (Ends (capacity b)) (output32 b n sig base padding padd_width)
unfolding output32
output32-Ends sig base padding padd_width b n =
    then-All (Ends (capacity b)) (number 32 15 n sig base padding padd_width) _
      (λ s. output_str-Ends s b)

next_word-Ends :
    (print : Buffer → ℕ → Option Buffer) (b : Buffer) (args : List Arg)
    → ((n : ℕ) → All (Ends (capacity b)) (print b n))
    → All (EndsArgs (capacity b)) (next_word print b args)
unfolding next_word
next_word-Ends print b [] keeps = tt
next_word-Ends print b (text s ∷ args) keeps = tt
next_word-Ends print b (word n ∷ args) keeps =
    bind-All (Ends (capacity b)) (EndsArgs (capacity b)) (print b n) (λ b'. some (b', args))
      (keeps n) (λ b' e. e)

next_text-Ends : (b : Buffer) (args : List Arg) → All (EndsArgs (capacity b)) (next_text b args)
unfolding next_text
next_text-Ends b [] = tt
next_text-Ends b (word n ∷ args) = tt
next_text-Ends b (text s ∷ args) = output_str-Ends s b

convert_long-Ends :
    (c padding padd_width : ℕ) (b : Buffer) (args : List Arg)
    → All (EndsArgs (capacity b)) (convert_long c padding padd_width b args)
unfolding convert_long
convert_long-Ends c padding padd_width b args =
    let P = EndsArgs (capacity b) in
    if-All P (c == 100) _ _
      (next_word-Ends (word64 true 10 padding padd_width) b args
        (output64-Ends true 10 padding padd_width b))
      (if-All P (c == 117) _ _
        (next_word-Ends (word64 false 10 padding padd_width) b args
          (output64-Ends false 10 padding padd_width b))
        (if-All P (c == 120) _ none
          (next_word-Ends (word64 false 16 padding padd_width) b args
            (output64-Ends false 16 padding padd_width b))
          tt))

pub convert-Ends :
    (c padding padd_width : ℕ) (rest : List ℕ) (b : Buffer) (args : List Arg)
    → All (EndsRest (capacity b)) (convert c padding padd_width rest b args)
unfolding convert
convert-Ends c padding padd_width rest b args =
    let P = EndsRest (capacity b) in
    let then_rest = λ (o : Option (Buffer × List Arg)).
      bind-All (EndsArgs (capacity b)) P o (λ r. some (r, rest)) in
    if-All P (c == 100) _ _
      (then_rest _
        (next_word-Ends (word32 true 10 padding padd_width) b args
          (λ n. output32-Ends true 10 padding padd_width b (n % 2 ^ 32)))
        (λ r e. e))
      (if-All P (c == 117) _ _
        (then_rest _
          (next_word-Ends (word32 false 10 padding padd_width) b args
            (λ n. output32-Ends false 10 padding padd_width b (n % 2 ^ 32)))
          (λ r e. e))
        (if-All P (c == 120) _ _
          (then_rest _
            (next_word-Ends (word32 false 1 padding padd_width) b args
              (λ n. output32-Ends false 1 padding padd_width b (n % 2 ^ 32)))
            (λ r e. e))
          (if-All P (c == 115) _ _ (then_rest _ (next_text-Ends b args) (λ r e. e)) (
            if-All P (c == 99) _ _
              (then_rest _ (next_word-Ends word8 b args (λ n. put_char-Ends b _)) (λ r e. e))
              (if-All P (c == percent) _ _
                (bind-All (Ends (capacity b)) P (put_char b percent) (λ b'. some ((b', args), rest))
                  (put_char-Ends b percent) (λ b' e. e))
                (if-All P (c == 108) _ none (long rest) tt))))))
  where
    long :
        (r : List ℕ)
        → All (EndsRest (capacity b)) (elim r as (λ _. Option ((Buffer × List Arg) × List ℕ)) [
          | [] ↦ none
          | d ∷ rest' ↦ elim (convert_long d padding padd_width b args) [
            | none ↦ none
            | some r' ↦ some (r', rest')
          ]
        ])
    long [] = tt
    long (d ∷ rest') =
        bind-All (EndsArgs (capacity b)) (EndsRest (capacity b))
          (convert_long d padding padd_width b args) (λ r'. some (r', rest'))
          (convert_long-Ends d padding padd_width b args) (λ r' e. e)
