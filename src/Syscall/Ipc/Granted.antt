-- ===== src/Syscall/Ipc/Granted.antt =====
-- src/syscall.c: what becomes of a capability that is handed to another process, by a message or by a
-- supervisor.
use separation_kernel.Prelude.{
  ℕ, ◌<◌, ◌≡◌, refl, ◌∙◌, not, Option, some, if◌then◌else◌, Bool-cases, inl, inr,
}
use separation_kernel.Config.{n_proc}
use separation_kernel.Cap.{get_type}
use separation_kernel.Cap.CapType
use separation_kernel.Cap.Time
use separation_kernel.CapNode.{Ptr, Heap, is_deleted, get_cap}
use separation_kernel.CapNode
use separation_kernel.CapNode.Forest.{Rings}
use separation_kernel.Proc.{get_cap_node}
use separation_kernel.Sched.{Schedule}
use separation_kernel.Kernel.{Kernel, ok, on_heap, rounds}
use separation_kernel.Kernel.ErrorCode
use separation_kernel.Kernel.Runs.{bind-ok, on_heap-ok}
use separation_kernel.Kernel.Sound.{IsSound}
use separation_kernel.Kernel.Sound.Parts.{with_tables, get_cap_node-IsTableNode, get_cap-IsValid}
use separation_kernel.Kernel.Sound.Moved.{IsMoved, move-IsMoved}
use separation_kernel.Syscall.Hook.{cap_update_hook, interprocess_move}
use separation_kernel.Syscall.Settled.Hook.{cap_update_hook-Hooked}
use separation_kernel.Syscall.Settled.Move.{live_of, free_of}

-- Some of the slice of a capability for time is still to be handed out.
abbrev pub IsLeft : Heap → Ptr → Type 0
IsLeft h p =
    get_type (get_cap h p) ≡ CapType.time → Time.get_free (get_cap h p) < Time.get_end (get_cap h p)

-- Between the nodes `src` and `dest` a capability moves if there is one and it finds room; else the
-- nodes stay as they are. The result says which.
abbrev pub Moves : Heap → Heap → (src dest : Ptr) → (code : ℕ) → Type 0
Moves h g src dest code =
    if is_deleted h src
    then (g ≡ h) × (code ≡ ErrorCode.empty)
    else if not (is_deleted h dest)
    then (g ≡ h) × (code ≡ ErrorCode.collision)
    else IsMoved h g (get_cap h src) src dest × (code ≡ ErrorCode.ok)

-- On a sound kernel a move between two processes comes back, with the processes untouched.
pub interprocess_move-Moves :
    {tables : Ptr} {rs : Rings} {k : Kernel}
    → IsSound tables rs k
    → (src_proc src_cidx dest_proc dest_cidx : ℕ) → src_proc < n_proc
    → dest_proc < n_proc
    → IsLeft k.heap (get_cap_node (k.procs src_proc) src_cidx)
    → (h : Heap) × (s : Schedule) × (r : ℕ → ℕ → Option ℕ) × (code : ℕ) × (interprocess_move
          src_proc src_cidx dest_proc dest_cidx k
        ≡ ok code (record k { heap = h; schedule = s; receivers = r }))
      × Moves k.heap h
          (get_cap_node (k.procs src_proc) src_cidx)
          (get_cap_node (k.procs dest_proc) dest_cidx)
          code
unfolding interprocess_move
interprocess_move-Moves {tables} {rs} {k} sound src_proc src_cidx dest_proc dest_cidx hs hd left =
    let src = get_cap_node (k.procs src_proc) src_cidx in
    let dest = get_cap_node (k.procs dest_proc) dest_cidx in
    let cap = get_cap k.heap src in
    elim (Bool-cases (is_deleted k.heap src)) [
      | inl empty ↦
          (k.heap, k.schedule, k.receivers, ErrorCode.empty, rw empty refl, rw empty (refl, refl))
      | inr live ↦ elim (Bool-cases (is_deleted k.heap dest)) [
        | inr taken ↦ (
          k.heap,
          k.schedule,
          k.receivers,
          ErrorCode.collision,
          rw (live, taken) refl,
          rw (live, taken) (refl, refl),
        )
        | inl free ↦
            let valid = get_cap-IsValid sound src live in
            let (s, r, hook, frame, owned) =
              cap_update_hook-Hooked sound (some dest_proc) hd src cap valid left in
            let (h, run, sound', moved) =
              move-IsMoved (with_tables sound s r frame owned) src dest cap 0
                (live_of k.heap src live) (get_cap_node-IsTableNode sound src_proc src_cidx hs)
                (free_of k.heap dest free) (get_cap_node-IsTableNode sound dest_proc dest_cidx hd)
                valid in
            (
              h,
              s,
              r,
              ErrorCode.ok,
              rw (live, free)
                  (bind-ok (cap_update_hook (some dest_proc) src cap) _ {k = k} hook
                    ∙ bind-ok (on_heap (λ g. CapNode.move rounds g cap src dest)) _
                        (on_heap-ok (λ g. CapNode.move rounds g cap src dest) run)),
              rw (live, free) (moved, refl),
            )
      ]
    ]
