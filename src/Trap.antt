-- ===== src/Trap.antt =====
-- src/trap.S: the way into the kernel from a process, as an operation of the kernel. The registers of
-- the hart are those of the process; `mret` is the end of `trap_entry` here. A timer interrupt that
-- arrives while the kernel itself runs is in Hart only, with the instructions of the way in and back.
pub mod AsmConsts
pub mod Context
pub mod Moves
pub mod Preempted
pub mod Restored
pub mod Saved
pub mod Stack
pub mod Hart
pub mod Settled
pub mod SysNr
use separation_kernel.Prelude.{ℕ, ◌+◌, ◌%◌, ◌^◌, Bool, ltb, ◌==◌, if◌then◌else◌}
use separation_kernel.Proc.{Regs}
use separation_kernel.Proc.Reg
use separation_kernel.Exception.{exception_handler}
use separation_kernel.Kernel.{M, pure, ◌>>=◌, ◌>>◌, get, put, current_proc, set_proc, put_reg}
use separation_kernel.Syscall.Basic.{
  syscall_unimplemented, syscall_get_pid, syscall_read_reg, syscall_write_reg, syscall_yield,
  sched_yield,
}
use separation_kernel.Syscall.Caps.{
  syscall_read_cap, syscall_move_cap, syscall_delete_cap, syscall_revoke_cap, syscall_derive_cap,
}
use separation_kernel.Syscall.Invoke.{syscall_invoke_cap}

-- What the hart holds when it enters the kernel: `regs` at Reg.pc is mepc, `interrupt` the sign of
-- mcause and `code` the rest of it, and `timer` the hart's timer register.
pub record Cause : Type 0 where
  pub regs : Regs
  pub interrupt : Bool
  pub code : ℕ
  pub mtval : ℕ
  pub timer : ℕ

abbrev pub mcause_u_ecall : ℕ
mcause_u_ecall = 8

-- The program counter and the registers x1 to x31, as `save_context` and the stores behind it put
-- them.
unfoldable pub save_context : Regs → M (Unit {0})
unfolding set_proc
save_context r = do
  k ← get
  let p = current_proc k
  put (set_proc k k.current (record p { regs = λ i. if ltb i 32 then r i else p.regs i }))

-- `syscall_vector`, by the number in t0; a number beyond it goes to its first entry. The arguments
-- are in a0 to a7.
unfoldable pub syscall_vector : (timer : ℕ) → Regs → M ℕ
syscall_vector timer r =
    if r Reg.t0 == SysNr.read_cap
    then syscall_read_cap (r Reg.a0)
    else if r Reg.t0 == SysNr.move_cap
    then syscall_move_cap (r Reg.a0) (r Reg.a1)
    else if r Reg.t0 == SysNr.delete_cap
    then syscall_delete_cap (r Reg.a0)
    else if r Reg.t0 == SysNr.revoke_cap
    then syscall_revoke_cap (r Reg.a0)
    else if r Reg.t0 == SysNr.derive_cap
    then syscall_derive_cap (r Reg.a0) (r Reg.a1) (r Reg.a2) (r Reg.a3)
    else if r Reg.t0 == SysNr.invoke_cap
    then syscall_invoke_cap (r Reg.a0) (r Reg.a1) (r Reg.a2) (r Reg.a3) (r Reg.a4) (r Reg.a5)
        (r Reg.a6) (r Reg.a7)
    else if r Reg.t0 == SysNr.get_pid
    then syscall_get_pid
    else if r Reg.t0 == SysNr.read_reg
    then syscall_read_reg (r Reg.a0)
    else if r Reg.t0 == SysNr.write_reg
    then syscall_write_reg (r Reg.a0) (r Reg.a1)
    else if r Reg.t0 == SysNr.yield
    then (syscall_yield timer >> pure 0)
    else syscall_unimplemented

-- The process goes on behind its `ecall`, and gets the result in a0.
unfoldable pub trap_syscall : (timer : ℕ) → Regs → M (Unit {0})
unfolding syscall_vector
trap_syscall timer r = do
  k ← get
  put_reg k.current Reg.pc ((r Reg.pc + 4) % 2 ^ 64)
  code ← syscall_vector timer r
  k' ← get
  put_reg k'.current Reg.a0 code

unfoldable pub trap_exception : Cause → M (Unit {0})
unfolding set_proc
trap_exception c = do
  k ← get
  put (set_proc k k.current (exception_handler (current_proc k) c.code c.mtval (c.regs Reg.pc)))

unfoldable pub trap_entry : Cause → M (Unit {0})
unfolding save_context trap_syscall trap_exception
trap_entry c = do
  save_context c.regs
  if c.interrupt
      then sched_yield
      else if c.code == mcause_u_ecall
      then trap_syscall c.timer c.regs
      else trap_exception c
