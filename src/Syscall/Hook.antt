-- ===== src/Syscall/Hook.antt =====
-- src/syscall.c: what the kernel does when a capability is created, updated or moved, and the move
-- of a capability between processes.
use separation_kernel.Prelude.{
  ℕ, Bool, true, false, not, ◌&&◌, Option, none, some, ltb, ◌==◌, if◌then◌else◌,
}
use separation_kernel.Config.{n_channels}
use separation_kernel.Cap.{Cap, is_type}
use separation_kernel.Cap.CapType
use separation_kernel.Cap.Time
use separation_kernel.Cap.Receiver
use separation_kernel.Cap.Server
use separation_kernel.CapNode
use separation_kernel.CapNode.{Ptr, is_deleted, get_cap}
use separation_kernel.Proc.{get_cap_node}
use separation_kernel.Sched
use separation_kernel.Kernel.{
  Kernel, M, pure, ◌>>=◌, ◌>>◌, get, put, assert, when, from_option, on_heap, rounds,
}
use separation_kernel.Kernel.ErrorCode

-- `proc->pid`, or `INVALID_PID` for `NULL`.
abbrev pub pid_of : Kernel → Option ℕ → ℕ
pid_of k none = Sched.invalid_pid
pid_of k (some i) = (k.procs i).pid

abbrev pub is_none : Option ℕ → Bool
is_none none = true
is_none (some _) = false

unfoldable pub time_hook : Option ℕ → Ptr → Cap → M (Unit {0})
time_hook proc node cap = do
  k ← get
  s ← from_option (
      Sched.update k.schedule (is_deleted k.heap node) (Time.get_hartid cap) (Time.get_free cap)
        (Time.get_end cap) (pid_of k proc))
  put (record k { schedule = s })

-- `receivers[channel][i]` with the store of the hook: `NULL` in the first place also clears the
-- second.
abbrev pub registered : (ℕ → ℕ → Option ℕ) → ℕ → Option ℕ → ℕ → ℕ → Option ℕ
registered receivers channel proc c i =
    if (c == channel) && (i == 0)
    then proc
    else if (c == channel) && (i == 1) && is_none proc
    then none
    else receivers c i

-- The bodies for receivers and for servers, with the channel of the capability.
unfoldable pub channel_hook : Option ℕ → Ptr → (channel : ℕ) → M (Unit {0})
channel_hook proc node channel = do
  k ← get
  when (not (is_deleted k.heap node)) (do
    assert (ltb channel n_channels)
    put (record k { receivers = registered k.receivers channel proc }))

unfoldable pub cap_update_hook : Option ℕ → Ptr → Cap → M (Unit {0})
unfolding time_hook channel_hook
cap_update_hook proc node cap = do
  when (is_type cap CapType.time) (time_hook proc node cap)
  when (is_type cap CapType.receiver) (channel_hook proc node (Receiver.get_channel cap))
  when (is_type cap CapType.server) (channel_hook proc node (Server.get_channel cap))

abbrev pub code_of : Bool → ℕ
code_of done = if done then ErrorCode.ok else ErrorCode.empty

unfoldable pub interprocess_move : (src_proc src_cidx dest_proc dest_cidx : ℕ) → M ℕ
interprocess_move src_proc src_cidx dest_proc dest_cidx = do
  k ← get
  let src_node = get_cap_node (k.procs src_proc) src_cidx
  let cap = get_cap k.heap src_node
  let dest_node = get_cap_node (k.procs dest_proc) dest_cidx
  if is_deleted k.heap src_node
      then pure ErrorCode.empty
      else if not (is_deleted k.heap dest_node)
      then pure ErrorCode.collision
      else (do
        cap_update_hook (some dest_proc) src_node cap
        moved ← on_heap (λ h. CapNode.move rounds h cap src_node dest_node)
        pure (code_of moved))
