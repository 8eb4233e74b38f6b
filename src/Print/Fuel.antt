-- ===== src/Print/Fuel.antt =====
-- src/snprintf.c: the loop of `vsnprintf` ends.
use separation_kernel.Prelude.{
  ℕ, zero, suc, ◌+◌, ◌-◌, ◌*◌, ◌≤◌, ◌<◌, ◌≡◌, refl, inl, inr, Option, none, some, List, [], ◌∷◌,
  ◌==◌, if◌then◌else◌, Bool-cases, arith,
}
use separation_kernel.Print.{
  Arg, Buffer, put_char, convert_long, convert, directive, read_width, format_from, length, percent,
  char_zero, space,
}
use separation_kernel.Print.Ends.{All, then-All, if-All}

-- The rest of the format is no longer than that.
abbrev Within : ℕ → (Buffer × List Arg) × List ℕ → Type 0
Within n (r, rest) = length rest ≤ n

convert-Within :
    (c padding padd_width : ℕ) (rest : List ℕ) (b : Buffer) (args : List Arg)
    → All (Within (length rest)) (convert c padding padd_width rest b args)
unfolding convert
convert-Within c padding padd_width rest b args =
    let P = Within (length rest) in
    let same =
      λ (o : Option (Buffer × List Arg)). then-All P o (λ r. some (r, rest)) (λ r. omega arith) in
    if-All P (c == 100) _ _ (same _) (
      if-All P (c == 117) _ _ (same _) (
        if-All P (c == 120) _ _ (same _) (
          if-All P (c == 115) _ _ (same _) (
            if-All P (c == 99) _ _ (same _) (
              if-All P (c == percent) _ _
                (then-All P (put_char b percent) (λ b'. some ((b', args), rest))
                  (λ b'. omega arith))
                (if-All P (c == 108) _ none (long rest) tt))))))
  where
    long :
        (r : List ℕ)
        → All (Within (length r)) (elim r as (λ _. Option ((Buffer × List Arg) × List ℕ)) [
          | [] ↦ none
          | d ∷ rest' ↦ elim (convert_long d padding padd_width b args) [
            | none ↦ none
            | some r' ↦ some (r', rest')
          ]
        ])
    long [] = tt
    long (d ∷ rest') =
        then-All (Within (length (d ∷ rest'))) (convert_long d padding padd_width b args)
          (λ r'. some (r', rest')) (λ r'. ground arith)

read_width-length : (w : ℕ) (f : List ℕ) → length (read_width w f).1 ≤ length f
unfolding read_width
read_width-length w [] = omega arith
read_width-length w (c ∷ f) = ground (arith, read_width-length (w * 10 + (c - char_zero)) f)

All-Within :
    (m n : ℕ) (o : Option ((Buffer × List Arg) × List ℕ))
    → m ≤ n
    → All (Within m) o
    → All (Within n) o
All-Within m n none le h = tt
All-Within m n (some (r, rest)) le h = omega (arith, h)

directive-Within :
    (f : List ℕ) (b : Buffer) (args : List Arg) → All (Within (length f)) (directive f b args)
unfolding directive
directive-Within [] b args = tt
directive-Within (c ∷ f) b args =
    let padding = if c == char_zero then char_zero else space in
    let f0 = if c == char_zero then f else c ∷ f in
    let shorter : length f0 ≤ suc (length f) = ground arith in
    let read = read_width-length 0 f0 in
    at_rest padding (read_width 0 f0).0 (read_width 0 f0).1 (omega (arith, shorter, read))
  where
    at_rest :
        (padding padd_width : ℕ) (f' : List ℕ)
        → length f' ≤ suc (length f)
        → All (Within (suc (length f))) (elim f' as (λ _. Option ((Buffer × List Arg) × List ℕ)) [
          | [] ↦ none
          | d ∷ rest ↦ convert d padding padd_width rest b args
        ])
    at_rest padding padd_width [] le = tt
    at_rest padding padd_width (d ∷ rest) le =
        All-Within (length rest) (suc (length f)) _ (omega arith)
          (convert-Within d padding padd_width rest b args)

-- Two rounds of fuel that go on alike.
same_after :
    {A B : Type 0} (P : A → Type 0) (o : Option A) (f g : A → Option B)
    → All P o
    → ((a : A) → P a → f a ≡ g a)
    → (elim o as (λ _. Option B) [ none ↦ none | some a ↦ f a ])
      ≡ (elim o as (λ _. Option B) [ none ↦ none | some a ↦ g a ])
same_after P none f g h same = refl
same_after P (some a) f g h same = same a h

any-All : {A : Type 0} (o : Option A) → All (λ _. Unit {0}) o
any-All none = tt
any-All (some a) = tt

-- The fuel does not matter as long as there is more of it than bytes in the format: the loop ends,
-- and what it leaves undefined is not for want of fuel.
pub format_from-fuel :
    (fuel fuel' : ℕ) (format : List ℕ) (b : Buffer) (args : List Arg)
    → length format < fuel
    → length format < fuel'
    → format_from fuel format b args ≡ format_from fuel' format b args
unfolding format_from
format_from-fuel zero fuel' format b args lt lt' = absurd (omega arith)
format_from-fuel (suc fuel) zero format b args lt lt' = absurd (omega arith)
format_from-fuel (suc fuel) (suc fuel') [] b args lt lt' = refl
format_from-fuel (suc fuel) (suc fuel') (c ∷ f) b args lt lt' =
    let plain =
      same_after (λ _. Unit {0}) (put_char b c) (λ b'. format_from fuel f b' args)
        (λ b'. format_from fuel' f b' args) (any-All (put_char b c))
        (λ b' _. format_from-fuel fuel fuel' f b' args (omega arith) (omega arith)) in
    let special =
      same_after (Within (length f)) (directive f b args)
        (λ ((b', args'), f'). format_from fuel f' b' args')
        (λ ((b', args'), f'). format_from fuel' f' b' args') (directive-Within f b args)
        (λ ((b', args'), f') le.
          format_from-fuel fuel fuel' f' b' args' (omega (arith, le)) (omega (arith, le))) in
    elim (Bool-cases (b.room == 0)) [
      | inl full ↦ rw full refl
      | inr room ↦ rw room (elim (Bool-cases (c == percent)) [
        | inl is_percent ↦ rw is_percent special
        | inr other ↦ rw other plain
      ])
    ]
