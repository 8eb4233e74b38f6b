-- ===== src/CapNode/Ring/Delete.antt =====
-- `cap_node_delete` on a ring.
use separation_kernel.Prelude.{ℕ, suc, ◌≡◌, true, false, some, List, [], ◌∷◌, ◌++◌, arith}
use mathlib.Core.List.{append_assoc}
use separation_kernel.CapNode.{Ptr, null, Heap, delete}
use separation_kernel.CapNode.Steps.{unlinked, delete-unlinked}
use separation_kernel.CapNode.Ring.Defs.{
  has, Distinct, Chain, IsRing, has-append, Chain-frame, IsRing-IsLinked, IsRing-outside,
  IsRing-others,
}
use separation_kernel.CapNode.Ring.Rotate.{IsRing-rotate}

module _ (h g : Heap) (node : Ptr) (same : (q : Ptr) → g q ≡ unlinked h node q) where
  Chain-unlinked :
      (p : Ptr) (xs : List Ptr)
      → Chain h p (node ∷ xs) p
      → Distinct (p ∷ node ∷ xs)
      → Chain g p xs p
  Chain-unlinked p [] c d = ground (arith, same p)
  Chain-unlinked p (x ∷ xs) c d = (
    ground (arith, same p, same x),
    Chain-frame h g x xs p c.1.1 (λ a i. ground (arith, same a))
        (λ a i. ground (arith, same a, has-append a xs (p ∷ []))),
  )

  IsRing-unlinked : (p : Ptr) (xs : List Ptr) → IsRing h p (node ∷ xs) → IsRing g p xs
  IsRing-unlinked p xs ring = record {
    chain = Chain-unlinked p xs ring.chain ring.distinct;
    distinct = let d = ring.distinct in ground arith;
    not_null = let n = ring.not_null in ground arith;
  }

  pub IsRing-unlinked_at :
      (p : Ptr) (xs ys : List Ptr) → IsRing h p (xs ++ node ∷ ys) → IsRing g p (xs ++ ys)
  IsRing-unlinked_at p [] ys ring = IsRing-unlinked p ys ring
  IsRing-unlinked_at p (x ∷ xs) ys ring =
      let turned : IsRing h x (xs ++ node ∷ (ys ++ p ∷ [])) =
        rw append_assoc at (IsRing-rotate [] x (xs ++ node ∷ ys) ring) in
      let rest : IsRing g x ((xs ++ ys) ++ p ∷ []) =
        rw append_assoc (IsRing-unlinked_at x xs (ys ++ p ∷ []) turned) in
      IsRing-rotate (xs ++ ys) p [] rest

-- In a ring that holds `node` and another node, `cap_node_delete` of `node` succeeds in the first
-- round of its loops, takes it out and marks it deleted, and changes neither a capability nor a
-- node outside the ring.
pub delete-IsRing :
    {h : Heap} (s node : Ptr) (xs ys : List Ptr) (fuel : ℕ)
    → IsRing h s (xs ++ node ∷ ys)
    → (g : Heap) × (delete (suc (suc fuel)) h node ≡ some (g, true))
      × IsRing g s (xs ++ ys)
      × ((g node).prev ≡ null)
      × ((q : Ptr) → (g q).cap ≡ (h q).cap)
      × ((q : Ptr) → has q (s ∷ xs ++ node ∷ ys) ≡ false → g q ≡ h q)
delete-IsRing {h} s node xs ys fuel ring =
    let at_node = IsRing-rotate xs node ys ring in
    let ok = IsRing-IsLinked at_node in
    let (g, run, same) = delete-unlinked ok (IsRing-others node ys s xs at_node) fuel in
    (
      g,
      run,
      IsRing-unlinked_at h g node same s xs ys ring,
      ground (arith, same node),
      λ q. ground (arith, same q),
      λ q out.
          let apart =
            IsRing-outside at_node q
              (ground (arith, has-append q xs (node ∷ ys), has-append q ys (s ∷ xs))) in
          ground (arith, same q),
    )
