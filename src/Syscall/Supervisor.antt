-- ===== src/Syscall/Supervisor.antt =====
-- src/syscall.c: what a supervisor capability lets its holder do with the processes of its range.
pub mod Busy
pub mod Range
use separation_kernel.Prelude.{
  ℕ, Bool, true, false, not, ◌&&◌, ◌||◌, Option, none, some, ltb, leb, ◌==◌, if◌then◌else◌,
}
use separation_kernel.Config.{n_proc}
use separation_kernel.Cap.{Cap, is_type}
use separation_kernel.Cap.CapType
use separation_kernel.Cap.Supervisor
use separation_kernel.Proc.{Proc, proc_cap, read_register, write_register}
use separation_kernel.Proc.Reg
use separation_kernel.ProcState
use separation_kernel.Kernel.{
  Kernel, Outcome, ok, fault, yield, M, pure, ◌>>=◌, ◌>>◌, get, put, assert, when, from_option,
  set_proc, put_reg, put_state,
}
use separation_kernel.Kernel.ErrorCode
use separation_kernel.Kernel.SupCall
use separation_kernel.Syscall.Hook.{interprocess_move}

-- `proc_supervisor_release`.
unfoldable pub release_supervisee : (pid : ℕ) → M (Unit {0})
release_supervisee pid = do
  k ← get
  state ← from_option (ProcState.supervisor_release (k.procs pid).state)
  put_state pid state

-- The frame of the operations that hold the supervisee while they work on it.
unfoldable pub holding : (pid : ℕ) → M ℕ → M ℕ
unfolding release_supervisee
holding pid work = do
  k ← get
  let (state, acquired) = ProcState.supervisor_acquire (k.procs pid).state
  if not acquired
      then pure ErrorCode.supervisee_busy
      else (do put_state pid state; code ← work; release_supervisee pid; pure code)

-- Suspending and resuming: the state word is updated, and the result says whether it was done.
unfoldable pub transition : (pid : ℕ) → (ℕ → ℕ × Bool) → M ℕ
transition pid step = do
  k ← get
  let (state, done) = step (k.procs pid).state
  put_state pid state
  pure (if done then ErrorCode.ok else ErrorCode.failed)

unfoldable pub supervise : (pid op arg0 arg1 : ℕ) → M ℕ
supervise pid op arg0 arg1 = do
  k ← get
  if op == SupCall.suspend
      then transition pid ProcState.supervisor_suspend
      else if op == SupCall.resume
      then transition pid ProcState.supervisor_resume
      else if op == SupCall.get_state
      then (do put_reg k.current Reg.a1 (k.procs pid).state; pure ErrorCode.ok)
      else if op == SupCall.read_reg
      then holding pid (do
        h ← get
        put_reg h.current Reg.a1 (read_register (h.procs pid) arg0)
        pure ErrorCode.ok)
      else if op == SupCall.write_reg
      then holding pid (do
        h ← get
        put (set_proc h pid (write_register (h.procs pid) arg0 arg1).0)
        pure ErrorCode.ok)
      else if op == SupCall.read_cap
      then holding pid (do
        h ← get
        let cap = proc_cap h.heap (h.procs pid) arg0
        put_reg h.current Reg.a1 cap.word0
        put_reg h.current Reg.a2 cap.word1
        pure ErrorCode.ok)
      else if op == SupCall.give_cap
      then holding pid (interprocess_move k.current arg0 pid arg1)
      else if op == SupCall.take_cap
      then holding pid (interprocess_move pid arg0 k.current arg1)
      else pure ErrorCode.unimplemented

-- A process beyond the array of processes is a fault.
unfoldable pub syscall_invoke_supervisor : Cap → (pid op arg0 arg1 : ℕ) → M ℕ
syscall_invoke_supervisor cap pid op arg0 arg1 = do
  assert (is_type cap CapType.supervisor)
  if ltb pid (Supervisor.get_free cap) || leb (Supervisor.get_end cap) pid
      then pure ErrorCode.invalid_supervisee
      else (do assert (ltb pid n_proc); supervise pid op arg0 arg1)
