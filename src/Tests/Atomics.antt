-- ===== src/Tests/Atomics.antt =====
-- Swaps of marked pointers at concrete rounds.
use separation_kernel.Prelude.{◌≡◌, refl, true, false, some, List, [], ◌∷◌, arith}
use separation_kernel.Atomic.{Round, marked_pointer_get, marked_pointer_compare_and_set}
use separation_kernel.Atomic.Pairs.{
  IsWord, swap_pairs, as_pairs, marked_pointer_compare_and_set-swap_pairs,
}

-- The first `sc.d` fails; in the second round the word is as it was.
abbrev rounds : List Round
rounds = record { loaded = 4097; stores = false } ∷ record { loaded = 4097; stores = true } ∷ []

rounds-IsWord : IsWord rounds
unfolding IsWord
rounds-IsWord = (omega arith, (omega arith, tt))

marked_pointer_compare_and_set-swap_pairs_example :
    as_pairs (marked_pointer_compare_and_set rounds 4096 8192 1 0) ≡ swap_pairs rounds 4096 8192 1 0
marked_pointer_compare_and_set-swap_pairs_example =
    marked_pointer_compare_and_set-swap_pairs rounds 4096 8192 1 0 rounds-IsWord
      (omega arith, omega arith) (omega arith, omega arith) (omega arith) (omega arith)

-- The swap stores pointer 8192 without a mark.
stored : swap_pairs rounds 4096 8192 1 0 ≡ some (true, some (8192, 0))
unfolding swap_pairs marked_pointer_get
stored = refl
