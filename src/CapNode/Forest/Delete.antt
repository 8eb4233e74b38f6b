-- ===== src/CapNode/Forest/Delete.antt =====
-- `cap_node_delete` and `cap_node_delete2` on the lists of the kernel.
use separation_kernel.Prelude.{
  ℕ, suc, ◌≡◌, ◌≢◌, refl, ap, true, false, not, some, ◌&&◌, List, [], ◌∷◌, ◌++◌, ◌==◌,
  if◌then◌else◌, arith, Bool-cases, inl, inr, ==→eq,
}
use separation_kernel.CapNode.{Ptr, null, Heap, delete, delete2}
use separation_kernel.CapNode.Steps.{IsLinked, unlinked, delete-unlinked, delete2-unlinked}
use separation_kernel.CapNode.Ring.{has, Distinct, IsRing, has-append, IsRing-others}
use separation_kernel.CapNode.Ring.Rotate.{IsRing-rotate}
use separation_kernel.CapNode.Ring.Delete.{IsRing-unlinked_at}
use separation_kernel.CapNode.Forest.Defs.{
  Rings, nodes, is_sentinel, AreRings, IsForest, has-split, IsRing-frame, IsRing-apart,
  IsForest-IsLinked, IsForest-not_null,
}

abbrev pub without : (node : Ptr) → List Ptr → List Ptr
without node [] = []
without node (x ∷ xs) = if x == node then xs else x ∷ without node xs

abbrev pub take_out : (node : Ptr) → Rings → Rings
take_out node [] = []
take_out node ((s, xs) ∷ rs) = (s, without node xs) ∷ take_out node rs

without-absent : (node : Ptr) (xs : List Ptr) → has node xs ≡ false → without node xs ≡ xs
without-absent node [] h = refl
without-absent node (x ∷ xs) h = ground (arith, without-absent node xs)

has-without :
    (q node : Ptr) (xs : List Ptr)
    → Distinct xs
    → has q (without node xs) ≡ (has q xs && not (q == node))
has-without q node [] d = refl
has-without q node (x ∷ xs) d = elim (Bool-cases (q == x)) [
  | inl e ↦
      let same = ==→eq q x e in
      ground (arith, has-without q node xs, ap (λ (a : Ptr). has a xs) same)
  | inr ne ↦ ground (arith, has-without q node xs)
]

without-split :
    (node : Ptr) (xs : List Ptr)
    → has node xs ≡ true
    → (front : List Ptr) × (back : List Ptr) × (xs ≡ front ++ node ∷ back)
      × (without node xs ≡ front ++ back)
without-split node [] i = cc
without-split node (x ∷ xs) i = elim (Bool-cases (node == x)) [
  | inl here ↦ let e = ==→eq node x here in ([], xs, ground arith, ground arith)
  | inr there ↦
      let (front, back, e, f) = without-split node xs (rw there at i) in
      (x ∷ front, back, ground (arith, e), ground (arith, f))
]

has-take_out :
    (h : Heap) (q node : Ptr) (rs : Rings)
    → AreRings h rs
    → is_sentinel node rs ≡ false
    → has q (nodes (take_out node rs)) ≡ (has q (nodes rs) && not (q == node))
has-take_out h q node [] r out = refl
has-take_out h q node ((s, xs) ∷ rs) r out =
    let d = r.0.distinct in
    ground (
      arith,
      has-take_out h q node rs r.2,
      has-without q node xs d.1,
      has-append q xs (nodes rs),
      has-append q (without node xs) (nodes (take_out node rs)),
    )

-- The node after one that is no sentinel is another node.
others :
    (h : Heap) (node : Ptr) (rs : Rings)
    → AreRings h rs
    → is_sentinel node rs ≡ false
    → has node (nodes rs) ≡ true
    → (h node).next ≢ node
others h node [] r out i = cc
others h node ((s, xs) ∷ rs) r out i = elim (Bool-cases (has node xs)) [
  | inl here ↦
      let (front, back, e) = has-split node xs here in
      IsRing-others node back s front (IsRing-rotate front node back (rw e at r.0))
  | inr there ↦ others h node rs r.2 (ground arith) (ground (arith, has-append node xs (nodes rs)))
]

module _ (h g : Heap) (node : Ptr) (at_node : IsLinked h node)
    (same : (q : Ptr) → g q ≡ unlinked h node q) where
  IsRing-without :
      (s : Ptr) (xs : List Ptr) → IsRing h s xs → node == s ≡ false → IsRing g s (without node xs)
  IsRing-without s xs ring ne = elim (Bool-cases (has node xs)) [
    | inl here ↦
        let (front, back, e, f) = without-split node xs here in
        rw f (IsRing-unlinked_at h g node same s front back (rw e at ring))
    | inr gone ↦ rw (without-absent node xs gone) (
        IsRing-frame h g s xs ring
          (λ q i. ground (arith, same q, IsRing-apart s xs node q ring at_node)))
  ]

  AreRings-take_out :
      (rs : Rings) → AreRings h rs → is_sentinel node rs ≡ false → AreRings g (take_out node rs)
  AreRings-take_out [] rings out = tt
  AreRings-take_out ((s, xs) ∷ rs) (ring, apart, rings) out = (
    IsRing-without s xs ring (ground arith),
    λ q i.
        let d = ring.distinct in
        ground (arith, apart q, has-take_out h q node rs rings, has-without q node xs d.1),
    AreRings-take_out rs rings (ground arith),
  )

  IsForest-take_out :
      (rs : Rings)
      → IsForest h rs
      → is_sentinel node rs ≡ false
      → (h node).prev ≢ null
      → IsForest g (take_out node rs)
  IsForest-take_out rs forest out live = record {
    rings = AreRings-take_out rs forest.rings out;
    listed = λ q lives. ground (
      arith,
      same q,
      has-take_out h q node rs forest.rings out,
      forest.listed q,
      at_node.backward,
      IsForest-not_null forest node live,
    );
  }

module _ {h : Heap} (rs : Rings) (node : Ptr) (forest : IsForest h rs) (live : (h node).prev ≢ null)
    (out : is_sentinel node rs ≡ false) where
  -- Any node of the lists of the kernel that is no sentinel is deleted in the first round of the
  -- loops, and the lists are as before but for that node.
  pub delete-IsForest :
      (fuel : ℕ)
      → (g : Heap) × (delete (suc (suc fuel)) h node ≡ some (g, true))
        × IsForest g (take_out node rs)
        × ((q : Ptr) → g q ≡ unlinked h node q)
  delete-IsForest fuel =
      let at_node = IsForest-IsLinked forest node live in
      let ne = others h node rs forest.rings out (forest.listed node live) in
      let (g, run, same) = delete-unlinked at_node ne fuel in
      (g, run, IsForest-take_out h g node at_node same rs forest out live, same)

  pub delete2-IsForest :
      (fuel : ℕ)
      → (g : Heap) × (delete2 (suc fuel) h node (h node).prev ≡ some (g, true))
        × IsForest g (take_out node rs)
        × ((q : Ptr) → g q ≡ unlinked h node q)
  delete2-IsForest fuel =
      let at_node = IsForest-IsLinked forest node live in
      let ne = others h node rs forest.rings out (forest.listed node live) in
      let (g, run, same) = delete2-unlinked at_node ne fuel in
      (g, run, IsForest-take_out h g node at_node same rs forest out live, same)
