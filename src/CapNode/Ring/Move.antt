-- ===== src/CapNode/Ring/Move.antt =====
-- `cap_node_move` on a ring.
use separation_kernel.Prelude.{ℕ, suc, ◌≡◌, ◌≢◌, true, false, some, List, ◌∷◌, ◌++◌, ◌∙◌, arith}
use separation_kernel.Cap.{Cap}
use separation_kernel.CapNode.{Ptr, null, Heap, move}
use separation_kernel.CapNode.Ring.Defs.{has, IsRing, has-append}
use separation_kernel.CapNode.Ring.Insert.{insert-IsRing}
use separation_kernel.CapNode.Ring.Delete.{delete-IsRing}

-- In a ring that holds `src` and another node, `cap_node_move` to a node that is in no list
-- succeeds with one round of each loop: the destination takes the place of the source and holds
-- the capability, the source is deleted, and no other capability and no node outside changes.
pub move-IsRing :
    {h : Heap} (s src dest : Ptr) (xs ys : List Ptr) (cap : Cap) (fuel : ℕ)
    → IsRing h s (xs ++ src ∷ ys)
    → (h dest).prev ≡ null
    → dest ≢ null
    → (g : Heap) × (move (suc (suc fuel)) h cap src dest ≡ some (g, true))
      × IsRing g s (xs ++ dest ∷ ys)
      × ((g dest).cap ≡ cap)
      × ((g src).prev ≡ null)
      × ((q : Ptr) → q ≢ dest → (g q).cap ≡ (h q).cap)
      × ((q : Ptr) → has q (s ∷ xs ++ src ∷ ys) ≡ false → q ≢ dest → g q ≡ h q)
unfolding move
move-IsRing {h} s src dest xs ys cap fuel ring fresh ne =
    let (mid, put, at_mid, got, caps, frame) =
      insert-IsRing s src dest xs ys cap (suc fuel) ring fresh ne in
    let (g, run, ring', gone, caps', frame') = delete-IsRing s src xs (dest ∷ ys) fuel at_mid in
    (
      g,
      rw (put, move) run,
      ring',
      caps' dest ∙ got,
      gone,
      λ q apart. caps' q ∙ caps q apart,
      λ q out apart.
          frame' q (ground (arith, has-append q xs (src ∷ dest ∷ ys), has-append q xs (src ∷ ys)))
          ∙ frame q out apart,
    )
