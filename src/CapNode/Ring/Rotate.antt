-- ===== src/CapNode/Ring/Rotate.antt =====
-- A ring may be read from any of its nodes.
use separation_kernel.Prelude.{◌≡◌, true, false, List, [], ◌∷◌, ◌++◌, arith}
use separation_kernel.CapNode.{Ptr, null, Heap}
use separation_kernel.CapNode.Ring.Defs.{has, Distinct, Chain, IsRing, has-append}

Chain-append :
    (h : Heap) (p : Ptr) (xs : List Ptr) (q : Ptr) (ys : List Ptr) (r : Ptr)
    → Chain h p xs q
    → Chain h q ys r
    → Chain h p (xs ++ q ∷ ys) r
Chain-append h p [] q ys r c d = (c, d)
Chain-append h p (x ∷ xs) q ys r c d = (c.0, Chain-append h x xs q ys r c.1 d)

Chain-split :
    (h : Heap) (p : Ptr) (xs : List Ptr) (q : Ptr) (ys : List Ptr) (r : Ptr)
    → Chain h p (xs ++ q ∷ ys) r
    → Chain h p xs q × Chain h q ys r
Chain-split h p [] q ys r c = c
Chain-split h p (x ∷ xs) q ys r c =
    let rest = Chain-split h x xs q ys r c.1 in ((c.0, rest.0), rest.1)

abbrev Apart : List Ptr → List Ptr → Type 0
Apart xs ys = (a : Ptr) → has a xs ≡ true → has a ys ≡ false

Distinct-append : (xs ys : List Ptr) → Distinct xs → Distinct ys → Apart xs ys → Distinct (xs ++ ys)
Distinct-append [] ys d e apart = e
Distinct-append (x ∷ xs) ys d e apart = (
  ground (arith, has-append x xs ys, apart x),
  Distinct-append xs ys d.1 e (λ a i. apart a (ground arith)),
)

Distinct-split : (xs ys : List Ptr) → Distinct (xs ++ ys) → Distinct xs × Distinct ys × Apart xs ys
Distinct-split [] ys d = (tt, d, λ a i. cc)
Distinct-split (x ∷ xs) ys d =
    let (front, back, apart) = Distinct-split xs ys d.1 in
    (
      (ground (arith, has-append x xs ys), front),
      back,
      λ a i. ground (arith, has-append x xs ys, apart a),
    )

Distinct-swap : (xs ys : List Ptr) → Distinct (xs ++ ys) → Distinct (ys ++ xs)
Distinct-swap xs ys d =
    let (front, back, apart) = Distinct-split xs ys d in
    Distinct-append ys xs back front (λ a i. ground (arith, apart a))

pub IsRing-rotate :
    {h : Heap} {p : Ptr} (xs : List Ptr) (q : Ptr) (ys : List Ptr)
    → IsRing h p (xs ++ q ∷ ys)
    → IsRing h q (ys ++ p ∷ xs)
IsRing-rotate {h} {p} xs q ys ring =
    let (front, back) = Chain-split h p xs q ys p ring.chain in
    record {
      chain = Chain-append h q ys p xs q back front;
      distinct = Distinct-swap (p ∷ xs) (q ∷ ys) ring.distinct;
      not_null =
          let n = ring.not_null in
          ground (arith, has-append null xs (q ∷ ys), has-append null ys (p ∷ xs));
    }
