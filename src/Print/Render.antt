-- ===== src/Print/Render.antt =====
-- src/snprintf.c: a buffer gets the text of the format as far as it has room.
use separation_kernel.Prelude.{
  ℕ, zero, suc, ◌-◌, ◌<◌, ◌≡◌, ◌⊎◌, refl, ap, sym, ◌∙◌, true, false, Option, none, some, List, [],
  ◌∷◌, ◌++◌, ◌==◌, Bool-cases, inl, inr, arith,
}
use mathlib.Core.List.{append_assoc, append-nil}
use separation_kernel.Print.{
  Arg, Buffer, put_char, output_str, directive, format_from, vsnprintf, length, percent,
}
use separation_kernel.Print.Pieces.{buffer, directive-into}
use separation_kernel.Print.FullText.{directive_piece, full_text}

abbrev pub take : ℕ → List ℕ → List ℕ
take zero xs = []
take (suc n) [] = []
take (suc n) (x ∷ xs) = x ∷ take n xs

output_str-full : (w s : List ℕ) → output_str (buffer w 0) s ≡ buffer w 0
unfolding output_str
output_str-full w [] = refl
output_str-full w (c ∷ s) = refl

-- A string that is printed goes as far as there is room.
output_str-take :
    (s w : List ℕ) (r : ℕ) → output_str (buffer w r) s ≡ buffer (w ++ take r s) (r - length s)
unfolding output_str
output_str-take [] w zero = rw append-nil refl
output_str-take [] w (suc r) = rw append-nil (ap (λ (m : ℕ). buffer w m) (omega arith))
output_str-take (c ∷ s) w zero = rw append-nil (ap (λ (m : ℕ). buffer w m) (omega arith))
output_str-take (c ∷ s) w (suc r) =
    output_str-take s (w ++ c ∷ []) r
    ∙ (rw append_assoc (ap (λ (m : ℕ). buffer (w ++ c ∷ take r s) m) (omega arith)))

output_str-append :
    (s t w : List ℕ) (r : ℕ)
    → output_str (output_str (buffer w r) s) t ≡ output_str (buffer w r) (s ++ t)
unfolding output_str
output_str-append [] t w r = refl
output_str-append (c ∷ s) t w zero = output_str-full w t
output_str-append (c ∷ s) t w (suc r) = output_str-append s t (w ++ c ∷ []) r

put_char-output_str :
    (w : List ℕ) (r c : ℕ)
    → put_char (buffer w (suc r)) c ≡ some (output_str (buffer w (suc r)) (c ∷ []))
unfolding put_char output_str
put_char-output_str w r c = refl

Option-cases : {A : Type 0} (o : Option A) → (o ≡ none) ⊎ ((a : A) × (o ≡ some a))
Option-cases none = inl refl
Option-cases (some a) = inr (a, refl)

module _ (fuel : ℕ) (c : ℕ) (f : List ℕ) (args : List Arg) (s : List ℕ)
    (whole : full_text (suc fuel) (c ∷ f) args ≡ some s) where
  full_text-plain :
      (c == percent) ≡ false
      → (rest : List ℕ) × (full_text fuel f args ≡ some rest) × (s ≡ c ∷ rest)
  unfolding full_text
  full_text-plain other = elim (Option-cases (full_text fuel f args)) [
    | inl e ↦ absurd (let bad = rw (other, e) at whole in ground arith)
    | inr (rest, e) ↦ (rest, e, let same = rw (other, e) at whole in ground arith)
  ]

  full_text-special :
      (c == percent) ≡ true
      → (bytes : List ℕ) × (args' : List Arg) × (f' : List ℕ) × (rest : List ℕ) × (directive_piece f
            args
          ≡ some ((bytes, args'), f'))
        × (full_text fuel f' args' ≡ some rest)
        × (s ≡ bytes ++ rest)
  unfolding full_text
  full_text-special special = elim (Option-cases (directive_piece f args)) [
    | inl e ↦ absurd (let bad = rw (special, e) at whole in ground arith)
    | inr (((bytes, args'), f'), e) ↦ elim (Option-cases (full_text fuel f' args')) [
      | inl e' ↦ absurd (let bad = rw (special, e, e') at whole in ground arith)
      | inr (rest, e') ↦
          (bytes, args', f', rest, e, e', let same = rw (special, e, e') at whole in ground arith)
    ]
  ]

format_from-full_text :
    (fuel : ℕ) (format w : List ℕ) (r : ℕ) (args : List Arg) (s : List ℕ)
    → full_text fuel format args ≡ some s
    → format_from fuel format (buffer w r) args ≡ some (output_str (buffer w r) s)
unfolding full_text format_from put_char output_str
format_from-full_text zero format w r args s h = cc
format_from-full_text (suc fuel) [] w r args s h = let empty : [] ≡ s = cc in rw (sym empty) refl
format_from-full_text (suc fuel) (c ∷ f) w zero args s h = rw (output_str-full w s) refl
format_from-full_text (suc fuel) (c ∷ f) w (suc r) args s h =
    let room : (suc r == 0) ≡ false = ground arith in
    elim (Bool-cases (c == percent)) [
      | inr other ↦
          let (rest, e, same) = full_text-plain fuel c f args s h other in
          rw (room, other, same) (format_from-full_text fuel f (w ++ c ∷ []) r args rest e)
      | inl special ↦
          let (bytes, args', f', rest, e, e', same) = full_text-special fuel c f args s h special in
          let b = output_str (buffer w (suc r)) bytes in
          let run : directive f (buffer w (suc r)) args ≡ some ((b, args'), f') =
            rw e at (directive-into f w r args) in
          rw (room, special, same, run)
            (format_from-full_text fuel f' b.written b.room args' rest e'
              ∙ ap (λ (b : Buffer). some b) (output_str-append bytes rest w (suc r)))
    ]

-- If a format and its arguments have a text, then `vsnprintf` into a buffer of `n` bytes stores the
-- first `n - 1` bytes of that text, and its result is the room that is left.
pub vsnprintf-full_text :
    (n : ℕ) (format : List ℕ) (args : List Arg) (s : List ℕ)
    → 0 < n
    → full_text (suc (length format)) format args ≡ some s
    → vsnprintf n format args ≡ some (take (n - 1) s, n - 1 - length s)
unfolding vsnprintf
vsnprintf-full_text zero format args s positive h = absurd (omega arith)
vsnprintf-full_text (suc n) format args s positive h =
    let less : suc n - 1 ≡ n = omega arith in
    rw less (
      ap
        (λ (o : Option Buffer). elim o as (λ _. Option (List ℕ × ℕ)) [
          | none ↦ none
          | some b ↦ some (b.written, b.room)
        ])
        (format_from-full_text (suc (length format)) format [] n args s h
          ∙ ap (λ (b : Buffer). some b) (output_str-take s [] n)))
