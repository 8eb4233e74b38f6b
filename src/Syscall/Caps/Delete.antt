-- ===== src/Syscall/Caps/Delete.antt =====
-- src/syscall.c: the deletion of a capability that the caller holds.
use separation_kernel.Prelude.{
  none, ℕ, ◌≡◌, ◌≢◌, refl, ◌∙◌, true, false, some, ◌<◌, ◌≤◌, arith, ◌==◌,
}
use separation_kernel.Config.{n_quantum}
use separation_kernel.Cap.{Cap, is_type}
use separation_kernel.Cap.CapType
use separation_kernel.Cap.Time
use separation_kernel.Cap.Receiver
use separation_kernel.Cap.Server
use separation_kernel.CapNode.{Heap, Ptr, is_deleted, get_cap}
use separation_kernel.CapNode
use separation_kernel.CapNode.Steps.{IsLinked, unlinked, delete-unlinked}
use separation_kernel.Sched
use separation_kernel.Sched.Table.{IsHart}
use separation_kernel.Proc.{get_cap_node}
use separation_kernel.Kernel.{Kernel, ok, when, current_proc, on_heap, rounds, from_option}
use separation_kernel.Kernel.ErrorCode
use separation_kernel.Kernel.Runs.{bind-ok, when-skip, on_heap-ok}
use separation_kernel.Syscall.Hook.{cap_update_hook, time_hook, channel_hook}
use separation_kernel.Syscall.Caps.{syscall_delete_cap}

-- What the assertions of `sched_update` ask of a capability for time.
pub record IsSlice (cap : Cap) : Type 0 where
  pub hart : IsHart (Time.get_hartid cap)
  pub some_time : Time.get_free cap < Time.get_end cap
  pub in_frame : Time.get_end cap ≤ n_quantum

update-deleted :
    (s : Sched.Schedule) (cap : Cap)
    → IsSlice cap
    → Sched.update s true
        (Time.get_hartid cap)
        (Time.get_free cap)
        (Time.get_end cap)
        Sched.invalid_pid
      ≡ some s
unfolding Sched.update
update-deleted s cap slice =
    let hart = slice.hart in
    let some_time = slice.some_time in let in_frame = slice.in_frame in ground arith

time_hook-deleted :
    (k : Kernel) (node : Ptr) (cap : Cap)
    → is_deleted k.heap node ≡ true
    → IsSlice cap
    → time_hook none node cap k ≡ ok tt k
unfolding time_hook
time_hook-deleted k node cap gone slice =
    rw (gone, update-deleted k.schedule cap slice, from_option) refl

channel_hook-deleted :
    (k : Kernel) (node : Ptr) (channel : ℕ)
    → is_deleted k.heap node ≡ true
    → channel_hook none node channel k ≡ ok tt k
unfolding channel_hook
channel_hook-deleted k node channel gone = rw gone refl

-- The hook for a node that is deleted has no effect.
cap_update_hook-deleted :
    (k : Kernel) (node : Ptr) (cap : Cap)
    → is_deleted k.heap node ≡ true
    → (is_type cap CapType.time ≡ true → IsSlice cap)
    → cap_update_hook none node cap k ≡ ok tt k
unfolding cap_update_hook
cap_update_hook-deleted k node cap gone slice =
    bind-ok (when (is_type cap CapType.time) (time_hook none node cap)) _ (
      when-skip (is_type cap CapType.time) (time_hook none node cap)
        (λ e. time_hook-deleted k node cap gone (slice e)))
    ∙ bind-ok (when (is_type cap CapType.receiver) (channel_hook none node channel)) _ (
        when-skip (is_type cap CapType.receiver) (channel_hook none node channel)
          (λ _. channel_hook-deleted k node channel gone))
    ∙ when-skip (is_type cap CapType.server) (channel_hook none node channel')
        (λ _. channel_hook-deleted k node channel' gone)
  where
    channel : ℕ
    channel = Receiver.get_channel cap

    channel' : ℕ
    channel' = Server.get_channel cap

-- The deletion of a capability of a list, whose slice is one of the schedule if it is for time,
-- ends with ERROR_OK and takes the node out of its list. No other part of the kernel changes: the
-- schedule still has the slice, and the channel its receiver.
pub syscall_delete_cap-held :
    (k : Kernel) (cidx : ℕ) (on_list : IsLinked k.heap (get_cap_node (current_proc k) cidx))
    → (k.heap (get_cap_node (current_proc k) cidx)).next ≢ get_cap_node (current_proc k) cidx
    → (is_type (get_cap k.heap (get_cap_node (current_proc k) cidx)) CapType.time ≡ true
        → IsSlice (get_cap k.heap (get_cap_node (current_proc k) cidx)))
    → (h : Heap) × (syscall_delete_cap cidx k ≡ ok ErrorCode.ok (record k { heap = h }))
      × ((q : Ptr) → h q ≡ unlinked k.heap (get_cap_node (current_proc k) cidx) q)
unfolding syscall_delete_cap is_deleted
syscall_delete_cap-held k cidx on_list others slice =
    let node = get_cap_node (current_proc k) cidx in
    let cap = get_cap k.heap node in
    let (h, run, same) = delete-unlinked on_list others 0 in
    let live : (k.heap node).prev == 0 ≡ false = ground (arith, on_list.live) in
    let gone : is_deleted h node ≡ true = ground (arith, same node) in
    let hook = cap_update_hook-deleted (record k { heap = h }) node cap gone slice in
    (
      h,
      rw live (
          bind-ok (on_heap (λ g. CapNode.delete rounds g node)) _ {k = k}
            (on_heap-ok (λ g. CapNode.delete rounds g node) run)
          ∙ bind-ok (cap_update_hook none node cap) _ hook),
      same,
    )
