-- ===== src/Syscall/Settled/Move.antt =====
-- `interprocess_move` keeps the invariant of the kernel.
use separation_kernel.Prelude.{
  ℕ, ◌<◌, ◌≡◌, ◌≢◌, inl, inr, refl, ◌∙◌, true, false, some, arith, Bool-cases,
}
use separation_kernel.Config.{n_proc}
use separation_kernel.CapNode.{Ptr, null, Heap, is_deleted, get_cap}
use separation_kernel.CapNode
use separation_kernel.CapNode.Forest.{Rings}
use separation_kernel.Proc.{get_cap_node}
use separation_kernel.Kernel.{Kernel, fault, ◌>>=◌, on_heap, rounds}
use separation_kernel.Kernel.Runs.{bind-ok, on_heap-ok}
use separation_kernel.Kernel.Sound.{IsSound, IsExhausted, Settled}
use separation_kernel.Kernel.Sound.Parts.{with_tables, get_cap_node-IsTableNode, get_cap-IsValid}
use separation_kernel.Kernel.Sound.Moved.{move-IsMoved}
use separation_kernel.Syscall.Hook.{cap_update_hook, interprocess_move}
use separation_kernel.Syscall.Settled.Steps.{ok-Settled}
use separation_kernel.Syscall.Settled.Hook.{
  cap_update_hook-Hooked, cap_update_hook-exhausted, slice_cases,
}

pub live_of : (h : Heap) (p : Ptr) → is_deleted h p ≡ false → (h p).prev ≢ null
unfolding is_deleted
live_of h p e = ground arith

pub free_of : (h : Heap) (p : Ptr) → is_deleted h p ≡ true → (h p).prev ≡ null
unfolding is_deleted
free_of h p e = ground arith

pub get_cap-live : (h : Heap) (p : Ptr) → is_deleted h p ≡ false → get_cap h p ≡ (h p).cap
unfolding get_cap
get_cap-live h p e = rw e refl

-- The fault of a hook on a capability in use.
pub exhausted-Settled :
    (A : Type 0) (tables : Ptr) (h : Heap) (p : Ptr)
    → is_deleted h p ≡ false
    → IsExhausted (get_cap h p)
    → Settled {A = A} tables h fault
exhausted-Settled A tables h p live e = (p, inl (rw (get_cap-live h p live) at e))

-- On a sound kernel the move of a capability between two processes of the kernel leaves it sound,
-- and faults only for a capability for time that has been handed out to the end.
pub interprocess_move-Settled :
    {tables : Ptr} {rs : Rings} {k : Kernel}
    → IsSound tables rs k
    → (src_proc src_cidx dest_proc dest_cidx : ℕ) → src_proc < n_proc
    → dest_proc < n_proc
    → Settled tables k.heap (interprocess_move src_proc src_cidx dest_proc dest_cidx k)
unfolding interprocess_move
interprocess_move-Settled {tables} {rs} {k} sound src_proc src_cidx dest_proc dest_cidx hs hd =
    let src = get_cap_node (k.procs src_proc) src_cidx in
    let dest = get_cap_node (k.procs dest_proc) dest_cidx in
    let cap = get_cap k.heap src in
    elim (Bool-cases (is_deleted k.heap src)) [
      | inl empty ↦ rw empty (rs, sound)
      | inr live ↦ rw live (elim (Bool-cases (is_deleted k.heap dest)) [
        | inr taken ↦ rw taken (rs, sound)
        | inl free ↦ rw free (elim (slice_cases cap) [
          | inr e ↦
              rw (cap_update_hook-exhausted k (some dest_proc) src cap e, ◌>>=◌)
                (exhausted-Settled ℕ tables k.heap src live e)
          | inl some_time ↦
              let valid = get_cap-IsValid sound src live in
              let (s, r, hook, frame, owned) =
                cap_update_hook-Hooked sound (some dest_proc) hd src cap valid some_time in
              let (h, run, sound', _) =
                move-IsMoved (with_tables sound s r frame owned) src dest cap 0
                  (live_of k.heap src live) (get_cap_node-IsTableNode sound src_proc src_cidx hs)
                  (free_of k.heap dest free) (get_cap_node-IsTableNode sound dest_proc dest_cidx hd)
                  valid in
              ok-Settled k.heap
                (bind-ok (cap_update_hook (some dest_proc) src cap) _ {k = k} hook
                  ∙ bind-ok (on_heap (λ g. CapNode.move rounds g cap src dest)) _
                      (on_heap-ok (λ g. CapNode.move rounds g cap src dest) run))
                sound'
        ])
      ])
    ]
