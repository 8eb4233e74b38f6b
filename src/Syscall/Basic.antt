-- ===== src/Syscall/Basic.antt =====
-- src/syscall.c: the calls that need no capability.
use separation_kernel.Prelude.{ℕ}
use separation_kernel.Proc.{read_register, write_register}
use separation_kernel.Proc.Reg
use separation_kernel.ProcState
use separation_kernel.Kernel.{ok, yield, M, pure, ◌>>=◌, ◌>>◌, get, current_proc, set_proc, put_reg}
use separation_kernel.Kernel.ErrorCode

unfoldable pub syscall_unimplemented : M ℕ
syscall_unimplemented = pure ErrorCode.unimplemented

unfoldable pub syscall_get_pid : M ℕ
syscall_get_pid k = ok (current_proc k).pid k

unfoldable pub syscall_read_reg : (regnr : ℕ) → M ℕ
syscall_read_reg regnr k = ok (read_register (current_proc k) regnr) k

unfoldable pub syscall_write_reg : (regnr val : ℕ) → M ℕ
unfolding set_proc
syscall_write_reg regnr val k =
    let (p, old) = write_register (current_proc k) regnr val in ok old (set_proc k k.current p)

-- src/sched.c: `sched_yield` gives the process back and does not return.
unfoldable pub sched_yield : {A : Type 0} → M A
sched_yield k =
    let p = current_proc k in
    yield (set_proc k k.current (record p { state = ProcState.release p.state }))

-- `timeout` is the hart's timer register.
unfoldable pub syscall_yield : (timeout : ℕ) → M (Unit {0})
unfolding sched_yield
syscall_yield timeout = do
  k ← get
  put_reg k.current Reg.timeout timeout
  put_reg k.current Reg.a0 ErrorCode.ok
  sched_yield
