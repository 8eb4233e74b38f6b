-- ===== src/CapNode/Ring/Insert.antt =====
-- `cap_node_insert` on a ring.
use separation_kernel.Prelude.{
  ℕ, suc, ◌≡◌, ◌≢◌, true, false, some, List, [], ◌∷◌, ◌++◌, Bool-cases, inl, inr, arith,
}
use separation_kernel.Cap.{Cap}
use separation_kernel.CapNode.{Ptr, null, Heap, insert}
use separation_kernel.CapNode.Steps.{linked, insert-linked}
use separation_kernel.CapNode.Ring.Defs.{
  has, Distinct, Chain, IsRing, has-append, Chain-frame, IsRing-live, IsRing-IsLinked,
  IsRing-outside,
}
use separation_kernel.CapNode.Ring.Rotate.{IsRing-rotate}

module _ (h g : Heap) (node p : Ptr) (cap : Cap)
    (same : (q : Ptr) → g q ≡ linked h cap node p q) where
  Chain-linked :
      (xs : List Ptr)
      → Chain h p xs p
      → Distinct (p ∷ xs)
      → has node (p ∷ xs) ≡ false
      → Chain g p (node ∷ xs) p
  Chain-linked [] c d out = ground (arith, same p, same node)
  Chain-linked (x ∷ xs) c d out = (
    ground (arith, same p, same node),
    (
      ground (arith, same node, same x),
      Chain-frame h g x xs p c.1 (λ a i. ground (arith, same a))
          (λ a i. ground (arith, same a, has-append a xs (p ∷ []))),
    ),
  )

  pub IsRing-linked :
      (xs : List Ptr) → IsRing h p xs → (h node).prev ≡ null → node ≢ null → IsRing g p (node ∷ xs)
  IsRing-linked xs ring fresh ne = elim (Bool-cases (has node (p ∷ xs))) [
    | inl old ↦ absurd (IsRing-live ring node old fresh)
    | inr new ↦ record {
      chain = Chain-linked xs ring.chain ring.distinct new;
      distinct = let d = ring.distinct in ground arith;
      not_null = let n = ring.not_null in ground arith;
    }
  ]

-- In a ring that holds `p`, `cap_node_insert` of a node that is in no list succeeds in the first
-- round of its loop, puts the node right behind `p` and the capability into it, and changes
-- neither another capability nor a node outside the ring.
pub insert-IsRing :
    {h : Heap} (s p node : Ptr) (xs ys : List Ptr) (cap : Cap) (fuel : ℕ)
    → IsRing h s (xs ++ p ∷ ys)
    → (h node).prev ≡ null
    → node ≢ null
    → (g : Heap) × (insert (suc fuel) h cap node p ≡ some (g, true))
      × IsRing g s (xs ++ p ∷ node ∷ ys)
      × ((g node).cap ≡ cap)
      × ((q : Ptr) → q ≢ node → (g q).cap ≡ (h q).cap)
      × ((q : Ptr) → has q (s ∷ xs ++ p ∷ ys) ≡ false → q ≢ node → g q ≡ h q)
insert-IsRing {h} s p node xs ys cap fuel ring fresh ne =
    let at_p = IsRing-rotate xs p ys ring in
    let (g, run, same) = insert-linked cap (IsRing-IsLinked at_p) fresh fuel in
    let at_p' = IsRing-linked h g node p cap same (ys ++ s ∷ xs) at_p fresh ne in
    (
      g,
      run,
      IsRing-rotate (node ∷ ys) s xs at_p',
      ground (arith, same node),
      λ q ne'. ground (arith, same q),
      λ q out ne'.
          let apart =
            IsRing-outside at_p q
              (ground (arith, has-append q xs (p ∷ ys), has-append q ys (s ∷ xs))) in
          ground (arith, same q),
    )
