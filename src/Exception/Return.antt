-- ===== src/Exception/Return.antt =====
-- Entering and leaving a process's own exception handler.
use separation_kernel.Prelude.{ℕ, ◌^◌, ◌<◌, ◌≡◌, ◌≢◌, ◌⊎◌, inl, inr, arith}
use separation_kernel.Proc.{Proc}
use separation_kernel.Proc.Reg
use separation_kernel.Exception.{mret, illegal_instruction, exception_handler}

-- Any exception but an illegal instruction with the code of `MRET` enters the handler of the process, with the cause and the
-- value; an illegal instruction with that code right after it resumes the process at the faulting instruction with
-- the stack pointer and the two argument registers that it had.
pub enter-return :
    (p : Proc) (mcause mtval mepc pc : ℕ)
    → (mcause ≢ illegal_instruction) ⊎ (mtval ≢ mret)
    → let q = exception_handler p mcause mtval mepc in
      let r = exception_handler q illegal_instruction mret pc in
      (q.regs Reg.pc ≡ p.regs Reg.tpc)
      × (q.regs Reg.sp ≡ p.regs Reg.tsp)
      × (q.regs Reg.a0 ≡ mcause)
      × (q.regs Reg.a1 ≡ mtval)
      × (r.regs Reg.pc ≡ mepc)
      × (r.regs Reg.sp ≡ p.regs Reg.sp)
      × (r.regs Reg.a0 ≡ p.regs Reg.a0)
      × (r.regs Reg.a1 ≡ p.regs Reg.a1)
unfolding exception_handler
enter-return p mcause mtval mepc pc (inl other) = ground arith
enter-return p mcause mtval mepc pc (inr other) = ground arith

-- `MRET` has 34 bits: for an instruction of 32 bits in `mtval` the handler never returns, and an
-- `mret` of the process enters its handler once more.
pub mret_unreachable :
    (p : Proc) (mcause mtval mepc : ℕ)
    → mtval < 2 ^ 32
    → let q = exception_handler p mcause mtval mepc in
      (q.regs Reg.pc ≡ p.regs Reg.tpc) × (q.regs Reg.ppc ≡ mepc)
unfolding exception_handler
mret_unreachable p mcause mtval mepc h = ground arith
