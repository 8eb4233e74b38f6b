-- ===== src/Atomic/Pairs.antt =====
-- inc/atomic.h: the functions on marked pointers, as operations on pairs of a pointer and a mark.
use separation_kernel.Prelude.{
  ℕ, ◌+◌, ◌-◌, ◌*◌, ◌/◌, ◌%◌, ◌^◌, ◌<◌, ◌≡◌, refl, sym, ap, ◌∙◌, Bool, true, false, Option, none,
  some, List, [], ◌∷◌, ◌==◌, ◌&&◌, if◌then◌else◌, Bool-cases, inl, inr, arith,
}
use separation_kernel.Prelude.Words.{◌&&&◌, ◌|||◌, low_mask}
use separation_kernel.Prelude.Bits.{
  bit_or_cut, bit_and_cut, bit_and_mask, bit_or-zero, zero-bit_or, bit_and-zero,
}
use separation_kernel.Atomic.{
  Round, Swapped, as_expected, compare_and_swap, compare_and_set, marked_pointer, pointer_mask,
  marked_pointer_get, marked_pointer_compare_and_set,
}

-- A pointer to a structure that is aligned to two bytes or more.
abbrev pub IsAligned : (ptr : ℕ) → Type 0
IsAligned ptr = (ptr % 2 ≡ 0) × (ptr < 2 ^ 64)

unfoldable pub IsWord : List Round → Type 0
IsWord [] = Unit {0}
IsWord (round ∷ rounds) = (round.loaded < 2 ^ 64) × IsWord rounds

marked : (ptr mark : ℕ) → IsAligned ptr → mark < 2 → ptr ||| mark ≡ ptr + mark
marked ptr mark aligned bit =
    let split : ptr ≡ ptr / 2 * 2 ^ 1 + 0 = omega arith in
    let joined = bit_or_cut 1 (ptr / 2) 0 0 mark (omega arith) bit in
    let whole : mark ≡ 0 * 2 ^ 1 + mark = omega arith in
    ap (λ (p : ℕ). p ||| mark) split
    ∙ ap (λ (m : ℕ). (ptr / 2 * 2 ^ 1 + 0) ||| m) whole
    ∙ joined
    ∙ omega (arith, bit_or-zero (ptr / 2), zero-bit_or mark)

pointer_of : (word : ℕ) → word < 2 ^ 64 → word &&& pointer_mask ≡ word - word % 2
pointer_of word lt =
    let split : word ≡ word / 2 * 2 ^ 1 + word % 2 = omega arith in
    let joined = bit_and_cut 1 (word / 2) (low_mask 63) (word % 2) 0 (omega arith) (omega arith) in
    ap (λ (w : ℕ). w &&& pointer_mask) split
    ∙ joined
    ∙ omega (arith, bit_and_mask 63 (word / 2), bit_and-zero (word % 2))

mark_of : (word : ℕ) → word &&& 1 ≡ word % 2
mark_of word = bit_and_mask 1 word

got : (word : ℕ) → word < 2 ^ 64 → marked_pointer_get word ≡ (word - word % 2, word % 2)
unfolding marked_pointer_get
got word lt = rw (pointer_of word lt) (ap (λ (m : ℕ). (word - word % 2, m)) (mark_of word))

-- What is stored is read back.
pub marked_pointer_get-marked_pointer :
    (ptr mark : ℕ)
    → IsAligned ptr
    → mark < 2
    → marked_pointer_get (marked_pointer ptr mark) ≡ (ptr, mark)
unfolding marked_pointer
marked_pointer_get-marked_pointer ptr mark aligned bit =
    let word : ptr + mark < 2 ^ 64 = omega arith in
    let low : (ptr + mark) % 2 ≡ mark = omega arith in
    let high : (ptr + mark) - mark ≡ ptr = omega arith in
    rw (marked ptr mark aligned bit) (rw (got (ptr + mark) word) (rw low (rw high refl)))

-- A swap of pairs, by the pair that each round loads.
unfoldable pub swap_pairs :
    List Round → (old_ptr new_ptr old_mark new_mark : ℕ) → Option (Bool × Option (ℕ × ℕ))
swap_pairs [] old_ptr new_ptr old_mark new_mark = none
swap_pairs (round ∷ rounds) old_ptr new_ptr old_mark new_mark =
    let again = swap_pairs rounds old_ptr new_ptr old_mark new_mark in
    let (ptr, mark) = marked_pointer_get round.loaded in
    if (ptr == old_ptr) && (mark == old_mark)
    then (if round.stores then some (true, some (new_ptr, new_mark)) else again)
    else some (false, none)

-- What a swap of words says about pairs.
unfoldable pub as_pairs : Option (Bool × Option ℕ) → Option (Bool × Option (ℕ × ℕ))
as_pairs none = none
as_pairs (some (done, none)) = some (done, none)
as_pairs (some (done, some word)) = some (done, some (marked_pointer_get word))

same_pair :
    (word ptr mark : ℕ)
    → word < 2 ^ 64
    → IsAligned ptr
    → mark < 2
    → (word == ptr + mark) ≡ ((word - word % 2 == ptr) && (word % 2 == mark))
same_pair word ptr mark lt aligned bit = ground arith

step-pairs :
    (round : Round) (expected word : ℕ) (pair : ℕ × ℕ)
    → (again : Option Swapped) (again' : Option (Bool × Option (ℕ × ℕ)))
    → marked_pointer_get word ≡ pair
    → as_pairs (as_expected expected again) ≡ again'
    → as_pairs (
        as_expected expected (
          if round.loaded == expected
          then (if round.stores
              then some (record { old = round.loaded; stored = some word })
              else again)
          else some (record { old = round.loaded; stored = none })))
      ≡ (if round.loaded == expected
          then (if round.stores then some (true, some pair) else again')
          else some (false, none))
unfolding as_pairs as_expected
step-pairs round expected word pair again again' back later =
    elim (Bool-cases (round.loaded == expected)) [
      | inl hit ↦ elim (Bool-cases round.stores) [
        | inl stores ↦ rw hit (rw stores (rw hit (rw back refl)))
        | inr fails ↦ rw hit (rw fails later)
      ]
      | inr miss ↦ rw miss (rw miss refl)
    ]

-- With aligned pointers and marks that are bits, the swap of the words is the swap of the pairs,
-- whatever the other harts store between its rounds: it succeeds, and stores the new pointer and
-- mark, exactly if the word has the old pointer and the old mark.
pub marked_pointer_compare_and_set-swap_pairs :
    (rounds : List Round) (old_ptr new_ptr old_mark new_mark : ℕ)
    → IsWord rounds
    → IsAligned old_ptr
    → IsAligned new_ptr
    → old_mark < 2
    → new_mark < 2
    → as_pairs (marked_pointer_compare_and_set rounds old_ptr new_ptr old_mark new_mark)
      ≡ swap_pairs rounds old_ptr new_ptr old_mark new_mark
unfolding marked_pointer_compare_and_set compare_and_set compare_and_swap swap_pairs as_pairs IsWord
    as_expected marked_pointer
marked_pointer_compare_and_set-swap_pairs [] old_ptr new_ptr old_mark new_mark words a b c d = refl
marked_pointer_compare_and_set-swap_pairs (round ∷ rounds) old_ptr new_ptr old_mark new_mark words a
      b c d =
    let later =
      marked_pointer_compare_and_set-swap_pairs rounds old_ptr new_ptr old_mark new_mark words.1 a b
        c d in
    let expected = old_ptr ||| old_mark in
    let test : ((round.loaded - round.loaded % 2 == old_ptr) && (round.loaded % 2 == old_mark))
        ≡ (round.loaded == expected) =
      sym (same_pair round.loaded old_ptr old_mark words.0 a c)
      ∙ ap (λ (e : ℕ). round.loaded == e) (sym (marked old_ptr old_mark a c)) in
    let back = marked_pointer_get-marked_pointer new_ptr new_mark b d in
    rw (got round.loaded words.0) (
      rw test (step-pairs round expected (new_ptr ||| new_mark) (new_ptr, new_mark) _ _ back later))
