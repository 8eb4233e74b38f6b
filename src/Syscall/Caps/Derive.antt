-- ===== src/Syscall/Caps/Derive.antt =====
-- src/syscall.c: the derivation of a time slice from a capability that the caller holds.
use separation_kernel.Prelude.{ℕ, ◌≡◌, refl, ◌∙◌, true, false, some, arith}
use separation_kernel.Cap.{Cap, get_type, is_type, IsWord}
use separation_kernel.Cap.CapType
use separation_kernel.Cap.Time
use separation_kernel.Cap.Derivation.{can_derive}
use separation_kernel.Cap.Update.{derive_update_cap}
use separation_kernel.Cap.Update.Derive.{derive-IsValid}
use separation_kernel.Cap.Valid.Defs.{IsValid}
use separation_kernel.CapNode.{Heap, Ptr, null, is_deleted, get_cap, set_cap, write}
use separation_kernel.CapNode
use separation_kernel.CapNode.Steps.{IsLinked, linked, insert-linked}
use separation_kernel.Sched
use separation_kernel.Sched.Table.{IsPid}
use separation_kernel.Sched.Update.{IsUpdated, update-IsUpdated}
use separation_kernel.Proc.{get_cap_node, set_reg}
use separation_kernel.Kernel.{
  Kernel, ok, current_proc, on_heap, rounds, from_option, set_proc, put_reg,
}
use separation_kernel.Kernel.ErrorCode
use separation_kernel.Kernel.Runs.{bind-ok, on_heap-ok}
use separation_kernel.Syscall.Hook.{cap_update_hook, time_hook}
use separation_kernel.Syscall.Caps.{syscall_derive_cap, put_cap, set_preemption}
use separation_kernel.Syscall.Caps.Delete.{IsSlice}
use separation_kernel.Syscall.Caps.Revoke.{interruptible}

-- Schedule `t` is that of the kernel with the slice of a capability entered for a process.
abbrev pub IsEntered : Kernel → (t : Sched.Schedule) → Cap → (pid : ℕ) → Type 0
IsEntered k t cap pid =
    IsUpdated k.schedule t (Time.get_hartid cap) (Time.get_free cap) (Time.get_end cap) pid

module _ (k : Kernel) (node : Ptr) (cap : Cap) (i : ℕ) (live : is_deleted k.heap node ≡ false)
    (slice : IsSlice cap) (pid : IsPid (k.procs i).pid) where
  time_hook-IsEntered :
      (t : Sched.Schedule) × (time_hook (some i) node cap k ≡ ok tt (record k { schedule = t }))
      × IsEntered k t cap (k.procs i).pid
  unfolding time_hook
  time_hook-IsEntered =
      let (t, run, reads) =
        update-IsUpdated k.schedule (Time.get_hartid cap) (Time.get_free cap) (Time.get_end cap)
          (k.procs i).pid slice.hart slice.some_time slice.in_frame pid in
      (t, rw (live, run, from_option) refl, reads)

  -- The hook for a time slice that process `i` has got enters it into the schedule.
  cap_update_hook-IsEntered :
      get_type cap ≡ CapType.time
      → (t : Sched.Schedule) × (cap_update_hook (some i) node cap k
          ≡ ok tt (record k { schedule = t }))
        × IsEntered k t cap (k.procs i).pid
  unfolding cap_update_hook is_type
  cap_update_hook-IsEntered kind =
      let (t, run, reads) = time_hook-IsEntered in
      (t, rw kind (bind-ok (time_hook (some i) node cap) _ {k = k} run), reads)

-- The kernel with the registers as `syscall_derive_cap` leaves them, and new nodes and schedule.
abbrev pub derived : Kernel → Heap → Sched.Schedule → Kernel
derived k h t = record (interruptible k) { preemption = false; heap = h; schedule = t }

interruptible-pid : (k : Kernel) (i : ℕ) → ((interruptible k).procs i).pid ≡ (k.procs i).pid
unfolding interruptible set_proc set_reg
interruptible-pid k i = ground arith

set_cap-IsLinked : (h : Heap) (p : Ptr) (cap : Cap) → IsLinked h p → IsLinked (set_cap h p cap) p
unfolding write
set_cap-IsLinked h p cap linked = record {
  live = ground (arith, linked.live);
  forward = ground (arith, linked.forward);
  backward = ground (arith, linked.backward);
}

set_cap-prev : (h : Heap) (p q : Ptr) (cap : Cap) → (set_cap h p cap q).prev ≡ (h q).prev
unfolding write
set_cap-prev h p q cap = ground arith

-- From a well-formed capability of a list, `syscall_derive_cap` of a time slice that the rules of
-- derivation allow, to an entry that is in no list and for a process of the kernel, ends with
-- ERROR_OK: the parent is updated, the new capability is put right behind it, and the schedule
-- gives the slice to the caller and is otherwise as it was.
pub syscall_derive_cap-IsEntered :
    (k : Kernel) (src_cidx dest_cidx : ℕ) (new : Cap)
    → (on_list : IsLinked k.heap (get_cap_node (current_proc k) src_cidx))
    → (k.heap (get_cap_node (current_proc k) dest_cidx)).prev ≡ null
    → can_derive (get_cap k.heap (get_cap_node (current_proc k) src_cidx)) new ≡ true
    → IsValid (get_cap k.heap (get_cap_node (current_proc k) src_cidx))
    → IsWord new
    → get_type new ≡ CapType.time
    → IsSlice new
    → IsPid (current_proc k).pid
    → (parent : Cap) × (t : Sched.Schedule) × (h : Heap) × (derive_update_cap
          (get_cap k.heap (get_cap_node (current_proc k) src_cidx))
          new
        ≡ some parent)
      × (syscall_derive_cap src_cidx dest_cidx new.word0 new.word1 k
          ≡ ok ErrorCode.ok (derived k h t))
      × IsEntered k t new (current_proc k).pid
      × ((q : Ptr)
          → h q
            ≡ linked
                (set_cap k.heap (get_cap_node (current_proc k) src_cidx) parent)
                new
                (get_cap_node (current_proc k) dest_cidx)
                (get_cap_node (current_proc k) src_cidx)
                q)
unfolding syscall_derive_cap put_reg set_preemption put_cap interruptible is_deleted
syscall_derive_cap-IsEntered k src_cidx dest_cidx new on_list fresh allowed valid word kind slice
      pid =
    let src = get_cap_node (current_proc k) src_cidx in
    let dest = get_cap_node (current_proc k) dest_cidx in
    let (parent, update, _, _) = derive-IsValid (get_cap k.heap src) new valid word allowed in
    let live : is_deleted k.heap src ≡ false = ground (arith, on_list.live) in
    let free : is_deleted k.heap dest ≡ true = ground (arith, fresh) in
    let h' = set_cap k.heap src parent in
    let k' = derived k h' k.schedule in
    let live' : is_deleted h' src ≡ false = rw (set_cap-prev k.heap src src parent) live in
    let same_pid = interruptible-pid k k.current in
    let (t, hook, reads) =
      cap_update_hook-IsEntered k' src new k.current live' slice (rw same_pid pid) kind in
    let (h, run, same) =
      insert-linked new (set_cap-IsLinked k.heap src parent on_list)
        (set_cap-prev k.heap src dest parent ∙ fresh) 1 in
    (
      parent,
      t,
      h,
      update,
      rw (live, free, allowed, update)
          (bind-ok (cap_update_hook (some k.current) src new) _ {k = k'} hook
            ∙ bind-ok (on_heap (λ g. CapNode.insert rounds g new dest src)) _
                (on_heap-ok (λ g. CapNode.insert rounds g new dest src) run)),
      rw same_pid at reads,
      same,
    )
