-- ===== src/Syscall/Caps/Move.antt =====
-- src/syscall.c: the move of a capability within the table of the caller.
use separation_kernel.Prelude.{ℕ, ◌≡◌, ◌≢◌, true, false, List, ◌∷◌, ◌++◌, arith}
use separation_kernel.CapNode.{Heap, Ptr, null, is_deleted, get_cap}
use separation_kernel.CapNode
use separation_kernel.CapNode.Ring.{has-append, IsRing, IsRing-live}
use separation_kernel.CapNode.Ring.Move.{move-IsRing}
use separation_kernel.Proc.{get_cap_node}
use separation_kernel.Kernel.{Kernel, ok, current_proc, on_heap, rounds}
use separation_kernel.Kernel.ErrorCode
use separation_kernel.Kernel.Runs.{bind-ok, on_heap-ok}
use separation_kernel.Syscall.Caps.{syscall_move_cap}

-- If the source is in a ring with another node and the destination is in no list,
-- `syscall_move_cap` ends with ERROR_OK: the destination takes the place of the source in the ring
-- and holds its capability, the source is deleted, and nothing else of the kernel changes.
pub syscall_move_cap-IsRing :
    (k : Kernel) (src_cidx dest_cidx : ℕ) (s : Ptr) (xs ys : List Ptr)
    → IsRing k.heap s (xs ++ get_cap_node (current_proc k) src_cidx ∷ ys)
    → (k.heap (get_cap_node (current_proc k) dest_cidx)).prev ≡ null
    → get_cap_node (current_proc k) dest_cidx ≢ null
    → (h : Heap) × (syscall_move_cap src_cidx dest_cidx k ≡ ok ErrorCode.ok (record k { heap = h }))
      × IsRing h s (xs ++ get_cap_node (current_proc k) dest_cidx ∷ ys)
      × ((h (get_cap_node (current_proc k) dest_cidx)).cap
          ≡ get_cap k.heap (get_cap_node (current_proc k) src_cidx))
      × ((h (get_cap_node (current_proc k) src_cidx)).prev ≡ null)
      × ((q : Ptr) → q ≢ get_cap_node (current_proc k) dest_cidx → (h q).cap ≡ (k.heap q).cap)
unfolding syscall_move_cap is_deleted
syscall_move_cap-IsRing k src_cidx dest_cidx s xs ys ring fresh ne =
    let src = get_cap_node (current_proc k) src_cidx in
    let dest = get_cap_node (current_proc k) dest_cidx in
    let cap = get_cap k.heap src in
    let (h, run, ring', got, gone, caps, _) = move-IsRing s src dest xs ys cap 0 ring fresh ne in
    let member = IsRing-live ring src (ground (arith, has-append src xs (src ∷ ys))) in
    let live : is_deleted k.heap src ≡ false = ground (arith, member) in
    let free : is_deleted k.heap dest ≡ true = ground (arith, fresh) in
    (
      h,
      rw (live, free)
          (bind-ok (on_heap (λ g. CapNode.move rounds g cap src dest)) _ {k = k}
            (on_heap-ok (λ g. CapNode.move rounds g cap src dest) run)),
      ring',
      got,
      gone,
      caps,
    )
