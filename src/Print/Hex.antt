-- ===== src/Print/Hex.antt =====
-- src/snprintf.c: `%x` of a 32-bit word is printed in base 1.
use separation_kernel.Prelude.{
  ℕ, zero, suc, ◌-◌, ◌/◌, ◌%◌, ◌^◌, ◌≡◌, ◌≢◌, refl, false, none, List, [], ◌∷◌, arith,
}
use separation_kernel.Print.{Arg, word, Buffer, digits, digit, number, output32, next_word, convert}

-- In base 1 the digits of a number that is not 0 do not end, and run out of the local buffer.
digits-base_one :
    (free i : ℕ) (bytes : List ℕ) (width : ℕ) → i ≢ 0 → digits free 1 i bytes width ≡ none
unfolding digits
digits-base_one zero i bytes width ne = refl
digits-base_one (suc free) i bytes width ne =
    ground (arith, digits-base_one free (i / 1) (digit (i % 1) ∷ bytes) (width - 1))

number-base_one :
    (n padding padd_width : ℕ) → n ≢ 0 → number 32 15 n false 1 padding padd_width ≡ none
unfolding number
number-base_one n padding padd_width ne = ground (arith, digits-base_one 15 n [] padd_width ne)

-- `%x` of a word whose low 32 bits are not 0 never comes back: whatever the padding and the room in
-- the buffer, the digits run over the local buffer of `output32`.
pub convert-hex :
    (padding padd_width : ℕ) (rest : List ℕ) (b : Buffer) (n : ℕ) (args : List Arg)
    → n % 2 ^ 32 ≢ 0
    → convert 120 padding padd_width rest b (word n ∷ args) ≡ none
unfolding convert next_word output32
convert-hex padding padd_width rest b n args ne =
    rw (number-base_one (n % 2 ^ 32) padding padd_width ne) refl
