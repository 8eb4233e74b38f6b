-- ===== src/CapNode/Ring/Defs.antt =====
-- Chains of linked nodes, rings, and lists of distinct addresses.
use separation_kernel.Prelude.{
  ◌≡◌, ◌≢◌, refl, ap, Bool, true, false, ◌||◌, List, [], ◌∷◌, ◌++◌, ◌==◌, arith,
}
use separation_kernel.CapNode.{Ptr, null, Heap}
use separation_kernel.CapNode.Steps.{IsLinked}

abbrev pub has : Ptr → List Ptr → Bool
has a [] = false
has a (x ∷ xs) = (a == x) || has a xs

abbrev pub Distinct : List Ptr → Type 0
Distinct [] = Unit {0}
Distinct (x ∷ xs) = (has x xs ≡ false) × Distinct xs

-- `q` comes right behind `p`.
abbrev pub Link : Heap → Ptr → Ptr → Type 0
Link h p q = ((h p).next ≡ q) × ((h q).prev ≡ p)

-- From `p` through `xs` to `q`.
abbrev pub Chain : Heap → Ptr → List Ptr → Ptr → Type 0
Chain h p [] q = Link h p q
Chain h p (x ∷ xs) q = Link h p x × Chain h x xs q

-- The ring of `p` and then `xs`.
pub record IsRing (h : Heap) (p : Ptr) (xs : List Ptr) : Type 0 where
  pub chain : Chain h p xs p
  pub distinct : Distinct (p ∷ xs)
  pub not_null : has null (p ∷ xs) ≡ false

pub has-append : (a : Ptr) (xs ys : List Ptr) → has a (xs ++ ys) ≡ (has a xs || has a ys)
has-append a [] ys = refl
has-append a (x ∷ xs) ys = ground (arith, has-append a xs ys)

-- A chain survives changes elsewhere.
pub Chain-frame :
    (h g : Heap) (p : Ptr) (xs : List Ptr) (q : Ptr)
    → Chain h p xs q
    → ((a : Ptr) → has a (p ∷ xs) ≡ true → (g a).next ≡ (h a).next)
    → ((a : Ptr) → has a (xs ++ q ∷ []) ≡ true → (g a).prev ≡ (h a).prev)
    → Chain g p xs q
Chain-frame h g p [] q c next prev = ground (arith, next p, prev q)
Chain-frame h g p (x ∷ xs) q c next prev = (
  ground (arith, next p, prev x),
  Chain-frame h g x xs q c.1 (λ a i. next a (ground arith)) (λ a i. prev a (ground arith)),
)

-- The last node of a chain is linked to its end.
pub Chain-end :
    (h : Heap) (p : Ptr) (xs : List Ptr) (q : Ptr)
    → Chain h p xs q
    → ((h (h q).prev).next ≡ q) × (has (h q).prev (p ∷ xs) ≡ true)
Chain-end h p [] q c = ground arith
Chain-end h p (x ∷ xs) q c = ground (arith, Chain-end h x xs q c.1)

-- The head of a chain is linked to its second node.
pub Chain-start :
    (h : Heap) (p : Ptr) (xs : List Ptr) (q : Ptr) → Chain h p xs q → (h (h p).next).prev ≡ p
Chain-start h p [] q c = ground arith
Chain-start h p (x ∷ xs) q c = ground arith

-- Every node of a chain but the first points back into it.
Chain-prev :
    (h : Heap) (p : Ptr) (xs : List Ptr) (q : Ptr)
    → Chain h p xs q
    → (a : Ptr) → has a (xs ++ q ∷ []) ≡ true
    → has (h a).prev (p ∷ xs) ≡ true
Chain-prev h p [] q c a i = ground arith
Chain-prev h p (x ∷ xs) q c a i = ground (arith, Chain-prev h x xs q c.1 a)

module _ {h : Heap} {p : Ptr} {xs : List Ptr} (ring : IsRing h p xs) where
  -- The nodes of a ring are not deleted.
  pub IsRing-live : (a : Ptr) → has a (p ∷ xs) ≡ true → (h a).prev ≢ null
  IsRing-live a i e =
      let back : has (h a).prev (p ∷ xs) ≡ true =
        Chain-prev h p xs p ring.chain a (ground (arith, has-append a xs (p ∷ []))) in
      let bad = ap (λ (b : Ptr). has b (p ∷ xs)) e in let good = ring.not_null in cc

  pub IsRing-IsLinked : IsLinked h p
  IsRing-IsLinked = record {
    live = IsRing-live p (ground arith);
    forward = (Chain-end h p xs p ring.chain).0;
    backward = Chain-start h p xs p ring.chain;
  }

-- In a ring of two nodes or more no node is its own neighbour.
pub IsRing-others :
    {h : Heap} (p : Ptr) (xs : List Ptr) (q : Ptr) (ys : List Ptr)
    → IsRing h p (xs ++ q ∷ ys)
    → (h p).next ≢ p
IsRing-others p [] q ys ring = let c = ring.chain in let d = ring.distinct in ground arith
IsRing-others p (x ∷ xs) q ys ring = let c = ring.chain in let d = ring.distinct in ground arith

ne_of_has : (a b : Ptr) (l : List Ptr) → has a l ≡ true → has b l ≡ false → b ≢ a
ne_of_has a b l i o e = let same = ap (λ (c : Ptr). has c l) e in cc

module _ {h : Heap} {p : Ptr} {xs : List Ptr} (ring : IsRing h p xs) where
  IsRing-next : has (h p).next (p ∷ xs) ≡ true
  IsRing-next = next xs ring.chain
    where
      next : (xs : List Ptr) → Chain h p xs p → has (h p).next (p ∷ xs) ≡ true
      next [] c = ground arith
      next (x ∷ xs) c = ground arith

  -- A node outside a ring is no neighbour of a node in it.
  pub IsRing-outside :
      (q : Ptr) → has q (p ∷ xs) ≡ false → (q ≢ p) × (q ≢ (h p).next) × (q ≢ (h p).prev)
  IsRing-outside q out = (
    ground arith,
    ne_of_has (h p).next q (p ∷ xs) IsRing-next out,
    ne_of_has (h p).prev q (p ∷ xs) (Chain-end h p xs p ring.chain).1 out,
  )
