-- ===== src/Syscall/Caps/Revoke.antt =====
-- src/syscall.c: the revocation and the deletion of a capability that the caller holds.
use separation_kernel.Prelude.{ℕ, ◌≡◌, refl, true, false}
use separation_kernel.CapNode.{is_deleted}
use separation_kernel.Proc.{get_cap_node, set_reg}
use separation_kernel.Proc.Reg
use separation_kernel.Kernel.{Kernel, ok, put_reg, set_proc, current_proc}
use separation_kernel.Kernel.ErrorCode
use separation_kernel.Syscall.Caps.{syscall_revoke_cap, set_preemption}

-- The state in which a revocation has said what the caller reads if it is preempted.
unfoldable pub interruptible : Kernel → Kernel
unfolding set_proc set_reg
interruptible k =
    record (set_proc k k.current (set_reg (current_proc k) Reg.a0 ErrorCode.preempted)) {
      preemption = true;
    }

-- The revocation of a capability whose node is in a list ends with ERROR_EMPTY, with the nodes, the
-- schedule and the receivers as they were.
pub syscall_revoke_cap-held :
    (k : Kernel)
    → (cidx : ℕ) → is_deleted k.heap (get_cap_node (current_proc k) cidx) ≡ false
    → syscall_revoke_cap cidx k ≡ ok ErrorCode.empty (interruptible k)
unfolding syscall_revoke_cap put_reg set_preemption interruptible is_deleted
syscall_revoke_cap-held k cidx h = rw h refl
