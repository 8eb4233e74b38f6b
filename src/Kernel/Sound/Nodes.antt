-- ===== src/Kernel/Sound/Nodes.antt =====
-- The invariant under the operations on capability nodes.
use separation_kernel.Prelude.{
  ℕ, suc, ◌≡◌, ◌≢◌, refl, ◌∙◌, true, some, [], ◌∷◌, ◌==◌, Bool-cases, inl, inr, arith,
}
use separation_kernel.Cap.{Cap}
use separation_kernel.Cap.Valid.Defs.{IsValid}
use separation_kernel.CapNode.{Ptr, null, Heap, insert, delete, set_cap, write}
use separation_kernel.CapNode.Steps.{linked, unlinked}
use separation_kernel.CapNode.Forest.{Rings, is_sentinel, IsForest-frame}
use separation_kernel.CapNode.Forest.Insert.{put, insert-IsForest}
use separation_kernel.CapNode.Forest.Delete.{take_out, delete-IsForest}
use separation_kernel.Kernel.{Kernel}
use separation_kernel.Kernel.Sound.{IsSound, IsTableNode}
use separation_kernel.Kernel.Sound.Parts.{with_heap}

pub is_sentinel-put :
    (q p node : Ptr) (rs : Rings) → is_sentinel q (put p node rs) ≡ is_sentinel q rs
is_sentinel-put q p node [] = refl
is_sentinel-put q p node ((s, xs) ∷ rs) = ground (arith, is_sentinel-put q p node rs)

pub is_sentinel-take_out :
    (q node : Ptr) (rs : Rings) → is_sentinel q (take_out node rs) ≡ is_sentinel q rs
is_sentinel-take_out q node [] = refl
is_sentinel-take_out q node ((s, xs) ∷ rs) = ground (arith, is_sentinel-take_out q node rs)

module _ {tables : Ptr} {rs : Rings} {k : Kernel} (sound : IsSound tables rs k) where
  -- A well-formed capability is put into a free node of a table, behind a node in use.
  pub insert-IsSound :
      (p node : Ptr) (cap : Cap) (fuel : ℕ)
      → (k.heap p).prev ≢ null
      → (k.heap node).prev ≡ null
      → IsTableNode tables node
      → IsValid cap
      → (h : Heap) × (insert (suc fuel) k.heap cap node p ≡ some (h, true))
        × IsSound tables (put p node rs) (record k { heap = h })
        × ((q : Ptr) → h q ≡ linked k.heap cap node p q)
  insert-IsSound p node cap fuel live fresh within valid =
      let positive = sound.tables_not_null in
      let (h, run, forest, same) =
        insert-IsForest rs p node cap fuel sound.forest live fresh (ground arith) in
      (
        h,
        run,
        with_heap sound (put p node rs) h forest
            (λ q w. is_sentinel-put q p node rs ∙ sound.apart q w)
            (λ q. elim (Bool-cases (q == node)) [
              | inl e ↦ let got : (h q).cap ≡ cap = ground (arith, same q) in rw got valid
              | inr ne ↦
                  let kept : (h q).cap ≡ (k.heap q).cap = ground (arith, same q) in
                  rw kept (sound.caps q)
            ]),
        same,
      )

  -- A node of a table that is in use is taken out.
  pub delete-IsSound :
      (node : Ptr) (fuel : ℕ)
      → (k.heap node).prev ≢ null
      → IsTableNode tables node
      → (h : Heap) × (delete (suc (suc fuel)) k.heap node ≡ some (h, true))
        × IsSound tables (take_out node rs) (record k { heap = h })
        × ((q : Ptr) → h q ≡ unlinked k.heap node q)
  delete-IsSound node fuel live within =
      let (h, run, forest, same) =
        delete-IsForest rs node sound.forest live (sound.apart node within) fuel in
      (
        h,
        run,
        with_heap sound (take_out node rs) h forest
            (λ q w. is_sentinel-take_out q node rs ∙ sound.apart q w)
            (λ q.
              let kept : (h q).cap ≡ (k.heap q).cap = ground (arith, same q) in
              rw kept (sound.caps q)),
        same,
      )

module _ {tables : Ptr} {rs : Rings} {k : Kernel} (sound : IsSound tables rs k) where
  -- A well-formed capability is stored in a node.
  pub set_cap-IsSound :
      (node : Ptr) (cap : Cap)
      → IsValid cap
      → IsSound tables rs (record k { heap = set_cap k.heap node cap })
  unfolding write
  set_cap-IsSound node cap valid =
      with_heap sound rs (set_cap k.heap node cap)
        (IsForest-frame k.heap (set_cap k.heap node cap) rs sound.forest
          (λ q. (ground arith, ground arith)))
        sound.apart
        (λ q. elim (Bool-cases (q == node)) [ inl e ↦ rw e valid | inr ne ↦ rw ne (sound.caps q) ])
