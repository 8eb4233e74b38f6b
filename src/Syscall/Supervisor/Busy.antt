-- ===== src/Syscall/Supervisor/Busy.antt =====
-- src/syscall.c: a supervisor cannot reach into a process that is not suspended.
use separation_kernel.Prelude.{
  ℕ, ◌≤◌, ◌<◌, ◌≡◌, ◌≢◌, ◌⊎◌, inl, inr, refl, true, false, ◌||◌, ltb, leb, ◌==◌, arith,
}
use separation_kernel.Config.{n_proc}
use separation_kernel.Cap.{Cap, is_type}
use separation_kernel.Cap.CapType
use separation_kernel.Cap.Supervisor
use separation_kernel.ProcState
use separation_kernel.ProcState.Code
use separation_kernel.Kernel.{Kernel, ok, M}
use separation_kernel.Kernel.ErrorCode
use separation_kernel.Kernel.SupCall
use separation_kernel.Syscall.Supervisor.{syscall_invoke_supervisor, supervise, holding}

holding-busy :
    (k : Kernel) (pid : ℕ) (work : M ℕ)
    → (k.procs pid).state ≢ Code.suspended
    → holding pid work k ≡ ok ErrorCode.supervisee_busy k
unfolding holding ProcState.supervisor_acquire ProcState.compare_and_set
holding-busy k pid work h =
    let busy : (k.procs pid).state == Code.suspended ≡ false = ground arith in rw busy refl

-- The operations on the registers and on the capabilities of the supervisee.
abbrev pub IsAccess : (op : ℕ) → Type 0
IsAccess op =
    (op ≡ SupCall.read_reg)
    ⊎ (op ≡ SupCall.write_reg)
    ⊎ (op ≡ SupCall.read_cap)
    ⊎ (op ≡ SupCall.give_cap)
    ⊎ (op ≡ SupCall.take_cap)

supervise-busy :
    (k : Kernel) (pid op arg0 arg1 : ℕ)
    → IsAccess op
    → (k.procs pid).state ≢ Code.suspended
    → supervise pid op arg0 arg1 k ≡ ok ErrorCode.supervisee_busy k
unfolding supervise
supervise-busy k pid op arg0 arg1 (inl e) h = rw e (holding-busy k pid _ h)
supervise-busy k pid op arg0 arg1 (inr (inl e)) h = rw e (holding-busy k pid _ h)
supervise-busy k pid op arg0 arg1 (inr (inr (inl e))) h = rw e (holding-busy k pid _ h)
supervise-busy k pid op arg0 arg1 (inr (inr (inr (inl e)))) h = rw e (holding-busy k pid _ h)
supervise-busy k pid op arg0 arg1 (inr (inr (inr (inr e)))) h = rw e (holding-busy k pid _ h)

-- With a supervisee in the range of the capability that is not suspended, every operation on its
-- registers or capabilities ends with ERROR_SUPERVISEE_BUSY and changes nothing.
pub syscall_invoke_supervisor-busy :
    (k : Kernel) (cap : Cap) (pid op arg0 arg1 : ℕ)
    → is_type cap CapType.supervisor ≡ true
    → Supervisor.get_free cap ≤ pid
    → pid < Supervisor.get_end cap
    → pid < n_proc
    → IsAccess op
    → (k.procs pid).state ≢ Code.suspended
    → syscall_invoke_supervisor cap pid op arg0 arg1 k ≡ ok ErrorCode.supervisee_busy k
unfolding syscall_invoke_supervisor
syscall_invoke_supervisor-busy k cap pid op arg0 arg1 kind low high proc range h =
    rw (kind, within, exists) (supervise-busy k pid op arg0 arg1 range h)
  where
    within : (ltb pid (Supervisor.get_free cap) || leb (Supervisor.get_end cap) pid) ≡ false
    within = ground arith

    exists : ltb pid n_proc ≡ true
    exists = ground arith
