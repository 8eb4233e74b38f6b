-- ===== src/Syscall/Caps.antt =====
-- src/syscall.c: the calls on the capabilities of the calling process.
pub mod Delete
pub mod Derive
pub mod Move
pub mod Revoke
use separation_kernel.Prelude.{
  ℕ, zero, suc, ◌+◌, ◌*◌, Bool, true, false, not, Option, none, some, ◌||◌, ◌==◌, if◌then◌else◌,
}
use separation_kernel.Config.{n_proc, n_caps}
use separation_kernel.Cap.{Cap}
use separation_kernel.Cap.Derivation.{is_child, can_derive}
use separation_kernel.Cap.Update.{derive_update_cap, revoke_update_cap}
use separation_kernel.CapNode
use separation_kernel.CapNode.{Ptr, Heap, is_deleted, get_cap, set_cap}
use separation_kernel.Proc.{Proc, get_cap_node}
use separation_kernel.Proc.Reg
use separation_kernel.Kernel.{
  Kernel, Outcome, ok, fault, yield, M, pure, ◌>>=◌, ◌>>◌, get, put, when, from_option,
  current_proc, put_reg, on_heap, rounds,
}
use separation_kernel.Kernel.ErrorCode
use separation_kernel.Syscall.Hook.{cap_update_hook, code_of}

unfoldable pub syscall_read_cap : (cidx : ℕ) → M ℕ
syscall_read_cap cidx = do
  k ← get
  let cap = get_cap k.heap (get_cap_node (current_proc k) cidx)
  put_reg k.current Reg.a1 cap.word0
  put_reg k.current Reg.a2 cap.word1
  pure ErrorCode.ok

unfoldable pub syscall_move_cap : (src_cidx dest_cidx : ℕ) → M ℕ
syscall_move_cap src_cidx dest_cidx = do
  k ← get
  let src_node = get_cap_node (current_proc k) src_cidx
  let cap = get_cap k.heap src_node
  let dest_node = get_cap_node (current_proc k) dest_cidx
  if is_deleted k.heap src_node
      then pure ErrorCode.empty
      else if not (is_deleted k.heap dest_node)
      then pure ErrorCode.collision
      else (do
        moved ← on_heap (λ h. CapNode.move rounds h cap src_node dest_node)
        pure (code_of moved))

unfoldable pub syscall_delete_cap : (cidx : ℕ) → M ℕ
syscall_delete_cap cidx = do
  k ← get
  let node = get_cap_node (current_proc k) cidx
  let cap = get_cap k.heap node
  if is_deleted k.heap node then pure ErrorCode.empty else (do
    deleted ← on_heap (λ h. CapNode.delete rounds h node)
    if not deleted
        then pure ErrorCode.empty
        else (do cap_update_hook none node cap; pure ErrorCode.ok))

-- `preemption_enable` and `preemption_disable`.
unfoldable pub set_preemption : Bool → M (Unit {0})
set_preemption b k = ok tt (record k { preemption = b })

unfoldable pub put_cap : Ptr → Cap → M (Unit {0})
put_cap node cap k = ok tt (record k { heap = set_cap k.heap node cap })

-- The loop of `syscall_revoke_cap`.
unfoldable pub revoke_children : ℕ → (node : Ptr) → Cap → M (Unit {0})
revoke_children zero node cap = λ k. fault
revoke_children (suc fuel) node cap = do
  k ← get
  let next_node = (k.heap node).next
  let next_cap = (k.heap next_node).cap
  if is_deleted k.heap node || not (is_child cap next_cap) then pure tt else (do
    set_preemption false
    deleted ← on_heap (λ h. CapNode.delete2 rounds h next_node node)
    when deleted (cap_update_hook (some k.current) node next_cap)
    set_preemption true
    revoke_children fuel node cap)

-- A list holds each node of the tables once at most.
abbrev pub list_bound : ℕ
list_bound = n_proc * n_caps + 1

unfoldable pub syscall_revoke_cap : (cidx : ℕ) → M ℕ
syscall_revoke_cap cidx = do
  k ← get
  put_reg k.current Reg.a0 ErrorCode.preempted
  set_preemption true
  let node = get_cap_node (current_proc k) cidx
  let cap = (k.heap node).cap
  if not (is_deleted k.heap node) then pure ErrorCode.empty else (do
    revoke_children list_bound node cap
    set_preemption false
    updated ← from_option (revoke_update_cap cap)
    put_cap node updated
    cap_update_hook (some k.current) node cap
    pure ErrorCode.ok)

unfoldable pub syscall_derive_cap : (src_cidx dest_cidx word0 word1 : ℕ) → M ℕ
syscall_derive_cap src_cidx dest_cidx word0 word1 = do
  k ← get
  put_reg k.current Reg.a0 ErrorCode.preempted
  set_preemption true
  let src_node = get_cap_node (current_proc k) src_cidx
  let src_cap = get_cap k.heap src_node
  let dest_node = get_cap_node (current_proc k) dest_cidx
  let new_cap : Cap = record { word0 = word0; word1 = word1 }
  if is_deleted k.heap src_node
      then pure ErrorCode.empty
      else if not (is_deleted k.heap dest_node)
      then pure ErrorCode.collision
      else if not (can_derive src_cap new_cap)
      then pure ErrorCode.illegal_derivation
      else (do
        set_preemption false
        updated ← from_option (derive_update_cap src_cap new_cap)
        put_cap src_node updated
        cap_update_hook (some k.current) src_node new_cap
        inserted ← on_heap (λ h. CapNode.insert rounds h new_cap dest_node src_node)
        pure (code_of inserted))
