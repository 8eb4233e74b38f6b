-- ===== src/Atomic.antt =====
-- inc/atomic.h: compare-and-swap by `lr` and `sc`, on words of eight bytes, and pointers with a mark in
-- their lowest bit.
pub mod Pairs
use separation_kernel.Prelude.{
  ℕ, ◌-◌, ◌^◌, Bool, Option, none, some, List, [], ◌∷◌, ◌==◌, if◌then◌else◌,
}
use separation_kernel.Prelude.Words.{◌&&&◌, ◌|||◌}

-- A round of the loop: the word that `lr.d` loads, which other harts may have stored to since the
-- round before, and whether `sc.d` stores.
pub record Round : Type 0 where
  pub loaded : ℕ
  pub stores : Bool

-- What the loop ends with: the word that it loaded last, and the word that it stored, if it did.
pub record Swapped : Type 0 where
  pub old : ℕ
  pub stored : Option ℕ

unfoldable pub compare_and_swap : List Round → (expected desired : ℕ) → Option Swapped
compare_and_swap [] expected desired = none
compare_and_swap (round ∷ rounds) expected desired =
    let again = compare_and_swap rounds expected desired in
    if round.loaded == expected
    then (if round.stores
        then some (record { old = round.loaded; stored = some desired })
        else again)
    else some (record { old = round.loaded; stored = none })

-- `compare_and_swap(ptr, expected, desired) == expected`.
unfoldable pub as_expected : (expected : ℕ) → Option Swapped → Option (Bool × Option ℕ)
as_expected expected none = none
as_expected expected (some s) = some (s.old == expected, s.stored)

unfoldable pub compare_and_set : List Round → (expected desired : ℕ) → Option (Bool × Option ℕ)
compare_and_set rounds expected desired =
    as_expected expected (compare_and_swap rounds expected desired)

unfoldable pub marked_pointer : (ptr mark : ℕ) → ℕ
marked_pointer ptr mark = ptr ||| mark

-- `~1ull`.
abbrev pub pointer_mask : ℕ
pointer_mask = 2 ^ 64 - 2

unfoldable pub marked_pointer_get_ptr : (word : ℕ) → ℕ
marked_pointer_get_ptr word = word &&& pointer_mask

-- The pointer, and the mark.
unfoldable pub marked_pointer_get : (word : ℕ) → ℕ × ℕ
marked_pointer_get word = (word &&& pointer_mask, word &&& 1)

unfoldable pub marked_pointer_compare_and_set :
    List Round → (old_ptr new_ptr old_mark new_mark : ℕ) → Option (Bool × Option ℕ)
unfolding compare_and_set
marked_pointer_compare_and_set rounds old_ptr new_ptr old_mark new_mark =
    compare_and_set rounds (old_ptr ||| old_mark) (new_ptr ||| new_mark)
