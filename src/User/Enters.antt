-- ===== src/User/Enters.antt =====
-- api/s3k.h and src/trap.S: which function of the kernel each wrapper gets to.
use separation_kernel.Prelude.{ℕ, ◌≡◌, refl, Option, some}
use separation_kernel.Cap.{Cap}
use separation_kernel.Proc.{Regs}
use separation_kernel.Proc.Reg
use separation_kernel.Kernel.{M, pure, ◌>>◌}
use separation_kernel.Kernel.SupCall
use separation_kernel.Syscall.Basic.{
  syscall_get_pid, syscall_read_reg, syscall_write_reg, syscall_yield,
}
use separation_kernel.Syscall.Caps.{
  syscall_read_cap, syscall_move_cap, syscall_delete_cap, syscall_revoke_cap, syscall_derive_cap,
}
use separation_kernel.Syscall.Invoke.{syscall_invoke_cap}
use separation_kernel.Trap.{syscall_vector}
use separation_kernel.User.Names.{Numbers, IsKernel}
use separation_kernel.User.{
  Ecall, load, operands, s3k_syscall, s3k_get_pid, s3k_read_reg, s3k_write_reg, s3k_yield,
  s3k_move_cap, s3k_delete_cap, s3k_revoke_cap, s3k_derive_cap, s3k_supervisor_suspend,
  s3k_supervisor_resume, s3k_supervisor_read_reg, s3k_supervisor_write_reg, s3k_supervisor_give_cap,
  s3k_supervisor_take_cap, s3k_send,
}

-- The wrappers that end in S3K_SYSCALL, with their arguments.
pub data Request : Type 0 where
  get_pid yield : Request
  read_reg : (regnr : ℕ) → Request
  write_reg : (regnr val : ℕ) → Request
  move_cap : (cidx_src cidx_dest : ℕ) → Request
  delete_cap revoke_cap : (cidx : ℕ) → Request
  derive_cap : (src_cidx dest_cidx : ℕ) → Cap → Request
  suspend resume : (sup_cid pid : ℕ) → Request
  sup_read_reg : (sup_cid pid reg_nr : ℕ) → Request
  sup_write_reg : (sup_cid pid reg_nr val : ℕ) → Request
  give_cap take_cap : (sup_cid pid src dest : ℕ) → Request
  send : (cid msg0 msg1 msg2 msg3 src : ℕ) → Request

abbrev pub perform : Numbers → Ecall → Regs → Request → Option ℕ
perform n ecall r get_pid = s3k_get_pid n ecall r
perform n ecall r yield = s3k_yield n ecall r
perform n ecall r (read_reg regnr) = s3k_read_reg n ecall r regnr
perform n ecall r (write_reg regnr val) = s3k_write_reg n ecall r regnr val
perform n ecall r (move_cap src dest) = s3k_move_cap n ecall r src dest
perform n ecall r (delete_cap cidx) = s3k_delete_cap n ecall r cidx
perform n ecall r (revoke_cap cidx) = s3k_revoke_cap n ecall r cidx
perform n ecall r (derive_cap src dest cap) = s3k_derive_cap n ecall r src dest cap
perform n ecall r (suspend sup pid) = s3k_supervisor_suspend n ecall r sup pid
perform n ecall r (resume sup pid) = s3k_supervisor_resume n ecall r sup pid
perform n ecall r (sup_read_reg sup pid reg) = s3k_supervisor_read_reg n ecall r sup pid reg
perform n ecall r (sup_write_reg sup pid reg val) =
    s3k_supervisor_write_reg n ecall r sup pid reg val
perform n ecall r (give_cap sup pid src dest) = s3k_supervisor_give_cap n ecall r sup pid src dest
perform n ecall r (take_cap sup pid src dest) = s3k_supervisor_take_cap n ecall r sup pid src dest
perform n ecall r (send cid msg0 msg1 msg2 msg3 src) =
    s3k_send n ecall r cid msg0 msg1 msg2 msg3 src

-- What each of them asks the kernel for. An invocation also gets the registers up to a5 that its
-- wrapper leaves alone.
abbrev pub asks : (timer : ℕ) → Regs → Request → M ℕ
asks timer r get_pid = syscall_get_pid
asks timer r yield = syscall_yield timer >> pure 0
asks timer r (read_reg regnr) = syscall_read_reg regnr
asks timer r (write_reg regnr val) = syscall_write_reg regnr val
asks timer r (move_cap src dest) = syscall_move_cap src dest
asks timer r (delete_cap cidx) = syscall_delete_cap cidx
asks timer r (revoke_cap cidx) = syscall_revoke_cap cidx
asks timer r (derive_cap src dest cap) = syscall_derive_cap src dest cap.word0 cap.word1
asks timer r (suspend sup pid) =
    syscall_invoke_cap sup pid SupCall.suspend (r Reg.a3) (r Reg.a4) (r Reg.a5) (r Reg.a6)
      (r Reg.a7)
asks timer r (resume sup pid) =
    syscall_invoke_cap sup pid SupCall.resume (r Reg.a3) (r Reg.a4) (r Reg.a5) (r Reg.a6) (r Reg.a7)
asks timer r (sup_read_reg sup pid reg) =
    syscall_invoke_cap sup pid SupCall.read_reg reg (r Reg.a4) (r Reg.a5) (r Reg.a6) (r Reg.a7)
asks timer r (sup_write_reg sup pid reg val) =
    syscall_invoke_cap sup pid SupCall.write_reg reg val (r Reg.a5) (r Reg.a6) (r Reg.a7)
asks timer r (give_cap sup pid src dest) =
    syscall_invoke_cap sup pid SupCall.give_cap src dest (r Reg.a5) (r Reg.a6) (r Reg.a7)
asks timer r (take_cap sup pid src dest) =
    syscall_invoke_cap sup pid SupCall.take_cap src dest (r Reg.a5) (r Reg.a6) (r Reg.a7)
asks timer r (send cid msg0 msg1 msg2 msg3 src) =
    syscall_invoke_cap cid msg0 msg1 msg2 msg3 src (r Reg.a6) (r Reg.a7)

-- The registers of the hart at the `ecall`.
abbrev pub at_ecall : Numbers → Regs → Request → Regs
at_ecall n r get_pid = load r Reg.t0 n.get_pid
at_ecall n r yield = load r Reg.t0 n.yield
at_ecall n r (read_reg regnr) = load (load r Reg.a0 regnr) Reg.t0 n.read_reg
at_ecall n r (write_reg regnr val) = load (load (load r Reg.a0 regnr) Reg.a1 val) Reg.t0 n.write_reg
at_ecall n r (move_cap src dest) = load (load (load r Reg.a0 src) Reg.a1 dest) Reg.t0 n.move_cap
at_ecall n r (delete_cap cidx) = load (load r Reg.a0 cidx) Reg.t0 n.delete_cap
at_ecall n r (revoke_cap cidx) = load (load r Reg.a0 cidx) Reg.t0 n.revoke_cap
at_ecall n r (derive_cap src dest cap) =
    load (load (load (load (load r Reg.a0 src) Reg.a1 dest) Reg.a2 cap.word0) Reg.a3 cap.word1)
      Reg.t0 n.derive_cap
at_ecall n r (suspend sup pid) =
    load (load (load (load r Reg.a0 sup) Reg.a1 pid) Reg.a2 n.supervisor_suspend) Reg.t0
      n.invoke_cap
at_ecall n r (resume sup pid) =
    load (load (load (load r Reg.a0 sup) Reg.a1 pid) Reg.a2 n.supervisor_resume) Reg.t0 n.invoke_cap
at_ecall n r (sup_read_reg sup pid reg) =
    load (load (load (load (load r Reg.a0 sup) Reg.a1 pid) Reg.a2 n.supervisor_read_reg) Reg.a3 reg)
      Reg.t0 n.invoke_cap
at_ecall n r (sup_write_reg sup pid reg val) =
    load
      (load
        (load (load (load (load r Reg.a0 sup) Reg.a1 pid) Reg.a2 n.supervisor_write_reg) Reg.a3 reg)
        Reg.a4 val)
      Reg.t0 n.invoke_cap
at_ecall n r (give_cap sup pid src dest) =
    load
      (load
        (load (load (load (load r Reg.a0 sup) Reg.a1 pid) Reg.a2 n.supervisor_give_cap) Reg.a3 src)
        Reg.a4 dest)
      Reg.t0 n.invoke_cap
at_ecall n r (take_cap sup pid src dest) =
    load
      (load
        (load (load (load (load r Reg.a0 sup) Reg.a1 pid) Reg.a2 n.supervisor_take_cap) Reg.a3 src)
        Reg.a4 dest)
      Reg.t0 n.invoke_cap
at_ecall n r (send cid msg0 msg1 msg2 msg3 src) =
    load
      (load
        (load (load (load (load (load r Reg.a0 cid) Reg.a1 msg0) Reg.a2 msg1) Reg.a3 msg2) Reg.a4
          msg3)
        Reg.a5 src)
      Reg.t0 n.invoke_cap

-- With the kernel's numbers, each wrapper that ends in S3K_SYSCALL makes one `ecall`, at which the
-- kernel enters the function of the same name with the wrapper's arguments, and returns what that
-- leaves in a0.
pub perform-Enters :
    (n : Numbers) (ecall : Ecall) (timer : ℕ) (r : Regs) (req : Request)
    → IsKernel n
    → (perform n ecall r req ≡ some (ecall (at_ecall n r req) Reg.a0))
      × (syscall_vector timer (at_ecall n r req) ≡ asks timer r req)
unfolding s3k_syscall operands syscall_vector s3k_get_pid s3k_yield s3k_read_reg s3k_write_reg
    s3k_move_cap s3k_delete_cap s3k_revoke_cap s3k_derive_cap s3k_supervisor_suspend
    s3k_supervisor_resume s3k_supervisor_read_reg s3k_supervisor_write_reg s3k_supervisor_give_cap
    s3k_supervisor_take_cap s3k_send
perform-Enters n ecall timer r get_pid h = (refl, rw h.get_pid refl)
perform-Enters n ecall timer r yield h = (refl, rw h.yield refl)
perform-Enters n ecall timer r (read_reg regnr) h = (refl, rw h.read_reg refl)
perform-Enters n ecall timer r (write_reg regnr val) h = (refl, rw h.write_reg refl)
perform-Enters n ecall timer r (move_cap src dest) h = (refl, rw h.move_cap refl)
perform-Enters n ecall timer r (delete_cap cidx) h = (refl, rw h.delete_cap refl)
perform-Enters n ecall timer r (revoke_cap cidx) h = (refl, rw h.revoke_cap refl)
perform-Enters n ecall timer r (derive_cap src dest cap) h = (refl, rw h.derive_cap refl)
perform-Enters n ecall timer r (suspend sup pid) h =
    (refl, rw (h.invoke_cap, h.supervisor_suspend) refl)
perform-Enters n ecall timer r (resume sup pid) h =
    (refl, rw (h.invoke_cap, h.supervisor_resume) refl)
perform-Enters n ecall timer r (sup_read_reg sup pid reg) h =
    (refl, rw (h.invoke_cap, h.supervisor_read_reg) refl)
perform-Enters n ecall timer r (sup_write_reg sup pid reg val) h =
    (refl, rw (h.invoke_cap, h.supervisor_write_reg) refl)
perform-Enters n ecall timer r (give_cap sup pid src dest) h =
    (refl, rw (h.invoke_cap, h.supervisor_give_cap) refl)
perform-Enters n ecall timer r (take_cap sup pid src dest) h =
    (refl, rw (h.invoke_cap, h.supervisor_take_cap) refl)
perform-Enters n ecall timer r (send cid msg0 msg1 msg2 msg3 src) h = (refl, rw h.invoke_cap refl)

pub read_cap-enters :
    (n : Numbers) (timer : ℕ) (r : Regs) (cidx : ℕ)
    → IsKernel n
    → syscall_vector timer (load (load r Reg.a0 cidx) Reg.t0 n.read_cap) ≡ syscall_read_cap cidx
unfolding syscall_vector
read_cap-enters n timer r cidx h = rw h.read_cap refl
