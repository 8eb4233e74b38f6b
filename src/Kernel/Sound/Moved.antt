-- ===== src/Kernel/Sound/Moved.antt =====
-- Where a capability is after `cap_node_move`.
use separation_kernel.Prelude.{ℕ, suc, ◌≡◌, ◌≢◌, true, some, ◌==◌, sym, ap, ◌∙◌, arith}
use separation_kernel.Cap.{Cap}
use separation_kernel.Cap.Valid.Defs.{IsValid}
use separation_kernel.CapNode.{Ptr, null, Heap, move}
use separation_kernel.CapNode.Forest.{Rings, IsForest-IsLinked, IsForest-not_null}
use separation_kernel.CapNode.Forest.Insert.{put}
use separation_kernel.CapNode.Forest.Delete.{take_out}
use separation_kernel.Kernel.{Kernel}
use separation_kernel.Kernel.Sound.{IsSound, IsTableNode}
use separation_kernel.Kernel.Sound.Nodes.{insert-IsSound, delete-IsSound}

-- The capability is at `dest`, the node `src` is free, and all others are used as before.
pub record IsMoved (h g : Heap) (cap : Cap) (src dest : Ptr) : Type 0 where
  pub arrived : (g dest).cap ≡ cap
  pub taken : (g dest).prev ≢ null
  pub free : (g src).prev ≡ null
  pub caps : (q : Ptr) → q ≢ dest → (g q).cap ≡ (h q).cap
  pub others : (q : Ptr) → q ≢ src → q ≢ dest → ((g q).prev == null) ≡ ((h q).prev == null)

module _ {tables : Ptr} {rs : Rings} {k : Kernel} (sound : IsSound tables rs k) where
  pub move-IsMoved :
      (src dest : Ptr) (cap : Cap) (fuel : ℕ)
      → (k.heap src).prev ≢ null
      → IsTableNode tables src
      → (k.heap dest).prev ≡ null
      → IsTableNode tables dest
      → IsValid cap
      → (h : Heap) × (move (suc (suc fuel)) k.heap cap src dest ≡ some (h, true))
        × IsSound tables (take_out src (put src dest rs)) (record k { heap = h })
        × IsMoved k.heap h cap src dest
  unfolding move
  move-IsMoved src dest cap fuel live within fresh within' valid =
      let (mid, put_run, put_sound, same) =
        insert-IsSound sound src dest cap (suc fuel) live fresh within' valid in
      let linked_src = IsForest-IsLinked sound.forest src live in
      let src_not_null = IsForest-not_null sound.forest src live in
      let apart : dest ≢ src = λ e. live (ap (λ (p : Ptr). (k.heap p).prev) (sym e) ∙ fresh) in
      let live' : (mid src).prev ≢ null =
        ground (arith, same src, linked_src.backward, src_not_null) in
      let (h, run, rest, gone) = delete-IsSound put_sound src fuel live' within in
      (
        h,
        rw (put_run, move) run,
        rest,
        record {
          arrived = ground (arith, same dest, gone dest);
          taken = ground (arith, same src, same dest, gone dest);
          free = ground (arith, gone src);
          caps = λ q away. ground (arith, same q, gone q);
          others = λ q away away'.
              let positive = sound.tables_not_null in
              ground (arith, same src, same q, gone q, linked_src.backward, src_not_null);
        },
      )
