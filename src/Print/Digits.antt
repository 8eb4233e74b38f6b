-- ===== src/Print/Digits.antt =====
-- src/snprintf.c: the digits of a number.
use separation_kernel.Prelude.{
  ℕ, zero, suc, ◌+◌, ◌-◌, ◌*◌, ◌/◌, ◌%◌, ◌^◌, ◌≤◌, ◌<◌, ◌≡◌, refl, ap, ==→eq, ◌∙◌, Bool, false,
  ◌&&◌, some, List, [], ◌∷◌, leb, ◌==◌, if◌then◌else◌, Bool-cases, inl, inr, arith,
}
use native.Mathlib.Nat.{
  div-lt_iff_lt-mul, div-eq_of_lt, mod-eq_of_lt, mod-lt, div-add-mod', pow-suc, pow-zero,
  pow-le-pow_left,
}
use separation_kernel.Print.{Local, digit, digits, number, pad, char_a, char_zero}

-- The number that a byte stands for, and that a list of bytes does behind a number.
abbrev pub digit_value : ℕ → ℕ
digit_value c = if leb char_a c then c - char_a + 10 else c - char_zero

abbrev pub value : (base before : ℕ) → List ℕ → ℕ
value base before [] = before
value base before (c ∷ cs) = value base (before * base + digit_value c) cs

digit_value-digit : (j : ℕ) → j < 16 → digit_value (digit j) ≡ j
digit_value-digit j lt = ground arith

digits-value :
    (free base i : ℕ) (bytes : List ℕ) (width : ℕ)
    → 1 < base
    → base ≤ 16
    → i < base ^ suc free
    → (l : Local) × (digits (suc free) base i bytes width ≡ some l)
      × (value base 0 l.bytes ≡ value base i bytes)
      × (width ≡ 0 → l.width ≡ 0)
unfolding digits
digits-value zero base i bytes width lo hi small =
    let unit : base ^ 1 ≡ base = grind (arith, pow-suc base 0, pow-zero base) in
    let one_digit : i < base = rw unit at small in
    let none_left = div-eq_of_lt one_digit in
    let itself = mod-eq_of_lt one_digit in
    (
      record { free = 0; bytes = digit (i % base) ∷ bytes; width = width - 1 },
      rw none_left refl,
      ap (λ (a : ℕ). value base a bytes)
          (ground (arith, digit_value-digit (i % base) (ground (arith, itself)), itself)),
      λ e. ground arith,
    )
digits-value (suc free) base i bytes width lo hi small =
    let whole : i / base * base + i % base ≡ i = div-add-mod' i base in
    let is_digit : i % base < 16 = ground (arith, mod-lt i {m = base} (omega arith)) in
    let front : value base (i / base) (digit (i % base) ∷ bytes) ≡ value base i bytes =
      ap (λ (a : ℕ). value base a bytes)
        (ap (λ (d : ℕ). i / base * base + d) (digit_value-digit (i % base) is_digit) ∙ whole) in
    elim (Bool-cases (i / base == 0)) [
      | inl last ↦ (
        record { free = suc free; bytes = digit (i % base) ∷ bytes; width = width - 1 },
        rw last refl,
        rw (==→eq _ _ last) at front,
        λ e. ground arith,
      )
      | inr more ↦
          let (l, run, read, unpadded) =
            digits-value free base (i / base) (digit (i % base) ∷ bytes) (width - 1) lo hi (
              (div-lt_iff_lt-mul {k = base} {x = i} {y = base ^ suc free} (omega arith)).1
                (omega (arith, pow-suc base (suc free), small))) in
          (l, rw more run, read ∙ front, λ e. unpadded (ground arith))
    ]

-- A word of 64 bits that is printed without padding, in a base from 8 to 16, fits the local buffer of
-- `output64`, and its bytes read back are the word; with a sign this is so below 2 ^ 63.
pub number-value :
    (n base padding : ℕ) (sig : Bool)
    → n < 2 ^ 64
    → 8 ≤ base
    → base ≤ 16
    → (leb (2 ^ 63) n && sig) ≡ false
    → (bytes : List ℕ) × (number 64 31 n sig base padding 0 ≡ some bytes) × (value base 0 bytes ≡ n)
unfolding number pad
number-value n base padding sig word lo hi positive =
    let room : 8 ^ 31 ≤ base ^ 31 = pow-le-pow_left lo 31 in
    let (l, run, read, unpadded) =
      digits-value 30 base n [] 0 (omega arith) hi (omega (arith, word, room)) in
    (l.bytes, rw (positive, number) (ground (arith, run, unpadded refl)), read)
