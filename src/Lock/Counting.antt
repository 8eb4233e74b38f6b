-- ===== src/Lock/Counting.antt =====
-- Lists of distinct numbers below a bound are no longer than the bound.
use separation_kernel.Prelude.{
  ℕ, zero, suc, ◌+◌, ◌≤◌, ◌<◌, ◌≡◌, refl, true, false, List, [], ◌∷◌, ◌==◌, if◌then◌else◌, arith,
}
use separation_kernel.CapNode.Ring.{has, Distinct}
use separation_kernel.Print.{length}

abbrev without : ℕ → List ℕ → List ℕ
without a [] = []
without a (x ∷ xs) = let rest = without a xs in if a == x then rest else x ∷ rest

has-without : (a b : ℕ) (xs : List ℕ) → has b (without a xs) ≡ true → has b xs ≡ true
has-without a b [] h = h
has-without a b (x ∷ xs) h = ground (arith, has-without a b xs)

hasnt-without : (a : ℕ) (xs : List ℕ) → has a (without a xs) ≡ false
hasnt-without a [] = refl
hasnt-without a (x ∷ xs) = ground (arith, hasnt-without a xs)

Distinct-without : (a : ℕ) (xs : List ℕ) → Distinct xs → Distinct (without a xs)
Distinct-without a [] d = d
Distinct-without a (x ∷ xs) d = ground (arith, Distinct-without a xs d.1, has-without a x xs)

length-absent : (a : ℕ) (xs : List ℕ) → has a xs ≡ false → length (without a xs) ≡ length xs
length-absent a [] out = refl
length-absent a (x ∷ xs) out = ground (arith, length-absent a xs)

length-without : (a : ℕ) (xs : List ℕ) → Distinct xs → length xs ≤ length (without a xs) + 1
length-without a [] d = omega arith
length-without a (x ∷ xs) d = ground (arith, length-without a xs d.1, length-absent a xs)

pub Distinct-length :
    (n : ℕ) (xs : List ℕ) → Distinct xs → ((a : ℕ) → has a xs ≡ true → a < n) → length xs ≤ n
Distinct-length zero [] d below = omega arith
Distinct-length zero (x ∷ xs) d below = absurd (omega (arith, below x (ground arith)))
Distinct-length (suc n) xs d below =
    let fewer =
      Distinct-length n (without n xs) (Distinct-without n xs d)
        (λ a i. ground (arith, below a, has-without n a xs i, hasnt-without n xs)) in
    omega (arith, length-without n xs d, fewer)
