-- ===== src/Syscall/Supervisor/Range.antt =====
-- src/syscall.c: a supervisor capability gives no power over processes beyond its range.
use separation_kernel.Prelude.{ℕ, ◌≤◌, ◌<◌, ◌⊎◌, ◌≡◌, refl, true, ◌||◌, ltb, leb, arith}
use separation_kernel.Cap.{Cap, is_type}
use separation_kernel.Cap.CapType
use separation_kernel.Cap.Supervisor
use separation_kernel.Kernel.{Kernel, ok}
use separation_kernel.Kernel.ErrorCode
use separation_kernel.Syscall.Supervisor.{syscall_invoke_supervisor}

-- The invocation of a supervisor capability with a process outside `free` and `end`, whatever the
-- operation, ends with ERROR_INVALID_SUPERVISEE and changes nothing.
pub syscall_invoke_supervisor-outside :
    (k : Kernel) (cap : Cap) (pid op arg0 arg1 : ℕ)
    → is_type cap CapType.supervisor ≡ true
    → (pid < Supervisor.get_free cap) ⊎ (Supervisor.get_end cap ≤ pid)
    → syscall_invoke_supervisor cap pid op arg0 arg1 k ≡ ok ErrorCode.invalid_supervisee k
unfolding syscall_invoke_supervisor
syscall_invoke_supervisor-outside k cap pid op arg0 arg1 h out = rw (h, beyond) refl
  where
    beyond : (ltb pid (Supervisor.get_free cap) || leb (Supervisor.get_end cap) pid) ≡ true
    beyond = ground (arith, out)
