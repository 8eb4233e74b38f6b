-- ===== src/Trap/Settled.antt =====
-- src/trap.S: whatever a process does to enter the kernel, the kernel stays well-formed.
use separation_kernel.Prelude.{
  ℕ, ◌+◌, ◌%◌, ◌<◌, ◌≡◌, ◌^◌, inl, inr, refl, ◌==◌, ltb, if◌then◌else◌, Bool-cases, ==→eq, arith,
}
use separation_kernel.Cap.{get_type}
use separation_kernel.Cap.CapType
use separation_kernel.Cap.Valid.Defs.{IsValid}
use separation_kernel.Cap.Valid.Empty.{null_cap-IsValid}
use separation_kernel.CapNode.{Ptr, Heap, is_deleted, get_cap}
use separation_kernel.CapNode.Forest.{Rings}
use separation_kernel.Proc.{Proc, Regs, get_cap_node, set_reg, write_register}
use separation_kernel.Proc.Reg
use separation_kernel.Exception.{exception_handler, restore, enter_handler}
use separation_kernel.Kernel.{Kernel, M, ◌>>◌, current_proc, put_reg}
use separation_kernel.Kernel.ErrorCode
use separation_kernel.Kernel.Sound.{IsSound, Settled}
use separation_kernel.Kernel.Sound.Parts.{set_proc-IsSound}
use separation_kernel.Syscall.Basic.{
  syscall_unimplemented, syscall_get_pid, syscall_read_reg, syscall_write_reg, syscall_yield,
  sched_yield,
}
use separation_kernel.Syscall.Invoke.{syscall_invoke_cap}
use separation_kernel.Syscall.Settled.Steps.{
  bind-Settled, if-Settled, set_reg-IsSound, sched_yield-Settled,
}
use separation_kernel.Syscall.Settled.Caps.{
  syscall_read_cap-Settled, syscall_move_cap-Settled, syscall_delete_cap-Settled,
  syscall_revoke_cap-Settled,
}
use separation_kernel.Syscall.Settled.Derive.{syscall_derive_cap-Settled}
use separation_kernel.Syscall.Settled.Supervisor.{syscall_invoke_supervisor-Settled}
use separation_kernel.Syscall.Settled.Ipc.{
  syscall_invoke_receiver-Settled, syscall_invoke_sender-Settled, syscall_invoke_server-Settled,
  syscall_invoke_client-Settled,
}
use separation_kernel.Trap.{
  Cause, mcause_u_ecall, syscall_vector, trap_syscall, trap_exception, trap_entry,
}
use separation_kernel.Trap.SysNr

module _ {tables : Ptr} {rs : Rings} {k : Kernel} (sound : IsSound tables rs k) where
  held-IsValid : (p : Ptr) → IsValid (get_cap k.heap p)
  unfolding get_cap
  held-IsValid p = elim (Bool-cases (is_deleted k.heap p)) [
    | inl gone ↦ rw gone null_cap-IsValid
    | inr live ↦ rw live (sound.caps p)
  ]

  syscall_invoke_cap-Settled :
      (cidx arg1 arg2 arg3 arg4 arg5 arg6 arg7 : ℕ)
      → Settled tables k.heap (syscall_invoke_cap cidx arg1 arg2 arg3 arg4 arg5 arg6 arg7 k)
  unfolding syscall_invoke_cap
  syscall_invoke_cap-Settled cidx arg1 arg2 arg3 arg4 arg5 arg6 arg7 =
      let cap = get_cap k.heap (get_cap_node (current_proc k) cidx) in
      let valid = held-IsValid (get_cap_node (current_proc k) cidx) in
      if-Settled tables k.heap k (get_type cap == CapType.empty) _ _ (λ _. (rs, sound))
        (λ _.
          if-Settled tables k.heap k (get_type cap == CapType.supervisor) _ _
            (λ e.
              syscall_invoke_supervisor-Settled sound cap valid (==→eq _ _ e) arg1 arg2 arg3 arg4)
            (λ _.
              if-Settled tables k.heap k (get_type cap == CapType.receiver) _ _
                (λ e. syscall_invoke_receiver-Settled sound cap valid (==→eq _ _ e))
                (λ _.
                  if-Settled tables k.heap k (get_type cap == CapType.sender) _ _
                    (λ e. syscall_invoke_sender-Settled sound cap valid (==→eq _ _ e) _ arg5)
                    (λ _.
                      if-Settled tables k.heap k (get_type cap == CapType.server) _ _
                        (λ e.
                          syscall_invoke_server-Settled sound cap valid (==→eq _ _ e) _ arg5 arg6)
                        (λ _.
                          if-Settled tables k.heap k (get_type cap == CapType.client) _ _
                            (λ e.
                              syscall_invoke_client-Settled sound cap valid (==→eq _ _ e) _ arg5)
                            (λ _. (rs, sound)))))))

  syscall_write_reg-Settled :
      (regnr val : ℕ) → Settled tables k.heap (syscall_write_reg regnr val k)
  unfolding syscall_write_reg write_register set_reg
  syscall_write_reg-Settled regnr val =
      (rs, set_proc-IsSound sound k.current _ (ground arith) (ground arith))

  syscall_yield-Settled :
      (A : Type 0) (h : Heap) (timer : ℕ) (m : M A)
      → Settled tables h ((syscall_yield timer >> m) k)
  unfolding syscall_yield sched_yield put_reg
  syscall_yield-Settled A h timer m =
      sched_yield-Settled
        (set_reg-IsSound (set_reg-IsSound sound k.current Reg.timeout timer) k.current Reg.a0
          ErrorCode.ok)
        A h

  syscall_vector-Settled :
      (timer : ℕ) (r : Regs)
      → ((i : ℕ) → r i < 2 ^ 64)
      → Settled tables k.heap (syscall_vector timer r k)
  unfolding syscall_vector syscall_unimplemented syscall_get_pid syscall_read_reg
  syscall_vector-Settled timer r words =
      let here = if-Settled {A = ℕ} tables k.heap k in
      here (r Reg.t0 == SysNr.read_cap) _ _ (λ _. syscall_read_cap-Settled sound _)
        (λ _.
          here (r Reg.t0 == SysNr.move_cap) _ _ (λ _. syscall_move_cap-Settled sound _ _)
            (λ _.
              here (r Reg.t0 == SysNr.delete_cap) _ _ (λ _. syscall_delete_cap-Settled sound _)
                (λ _.
                  here (r Reg.t0 == SysNr.revoke_cap) _ _ (λ _. syscall_revoke_cap-Settled sound _)
                    (λ _.
                      here (r Reg.t0 == SysNr.derive_cap) _ _
                        (λ _.
                          syscall_derive_cap-Settled sound _ _
                            (record { word0 = r Reg.a2; word1 = r Reg.a3 })
                            (words Reg.a2, words Reg.a3))
                        (λ _.
                          here (r Reg.t0 == SysNr.invoke_cap) _ _
                            (λ _. syscall_invoke_cap-Settled _ _ _ _ _ _ _ _)
                            (λ _.
                              here (r Reg.t0 == SysNr.get_pid) _ _ (λ _. (rs, sound))
                                (λ _.
                                  here (r Reg.t0 == SysNr.read_reg) _ _ (λ _. (rs, sound))
                                    (λ _.
                                      here (r Reg.t0 == SysNr.write_reg) _ _
                                        (λ _. syscall_write_reg-Settled _ _)
                                        (λ _.
                                          here (r Reg.t0 == SysNr.yield) _ _
                                            (λ _. syscall_yield-Settled ℕ k.heap timer _)
                                            (λ _. (rs, sound)))))))))))

exception_handler-keeps :
    (p : Proc) (mcause mtval mepc : ℕ)
    → ((exception_handler p mcause mtval mepc).pid ≡ p.pid)
      × ((exception_handler p mcause mtval mepc).cap_table ≡ p.cap_table)
unfolding exception_handler restore enter_handler set_reg
exception_handler-keeps p mcause mtval mepc = (ground arith, ground arith)

module _ {tables : Ptr} {rs : Rings} {k : Kernel} (sound : IsSound tables rs k) where
  trap_syscall-Settled :
      (timer : ℕ) (r : Regs)
      → ((i : ℕ) → r i < 2 ^ 64)
      → Settled tables k.heap (trap_syscall timer r k)
  unfolding trap_syscall put_reg
  trap_syscall-Settled timer r words =
      let next = set_reg-IsSound sound k.current Reg.pc ((r Reg.pc + 4) % 2 ^ 64) in
      bind-Settled tables k.heap (syscall_vector timer r _) _
        (syscall_vector-Settled next timer r words)
        (λ code k' rs' e sound'. (rs', set_reg-IsSound sound' k'.current Reg.a0 code))

  trap_exception-Settled : (c : Cause) → Settled tables k.heap (trap_exception c k)
  unfolding trap_exception
  trap_exception-Settled c =
      let (same, same') = exception_handler-keeps (current_proc k) c.code c.mtval (c.regs Reg.pc) in
      (rs, set_proc-IsSound sound k.current _ same same')

-- From a well-formed kernel, with words in the registers of the hart, a system call, an exception or
-- a timer interrupt comes back to a process or gives up the hart in a well-formed kernel, whatever
-- the registers hold; it meets a failed assertion, an access beyond an array or a loop without end
-- only if a node holds a capability for time whose slice has been handed out to the end.
pub trap_entry-Settled :
    (tables : Ptr) (rs : Rings) (k : Kernel) (c : Cause)
    → IsSound tables rs k
    → ((i : ℕ) → c.regs i < 2 ^ 64)
    → Settled tables k.heap (trap_entry c k)
unfolding trap_entry
trap_entry-Settled tables rs k c sound words =
    let saved =
      set_proc-IsSound sound k.current
        (record (current_proc k) {
          regs = λ i. if ltb i 32 then c.regs i else (current_proc k).regs i;
        })
        refl refl in
    if-Settled {A = Unit {0}} tables k.heap _ c.interrupt _ _
      (λ _. sched_yield-Settled saved (Unit {0}) k.heap)
      (λ _.
        if-Settled {A = Unit {0}} tables k.heap _ (c.code == mcause_u_ecall) _ _
          (λ _. trap_syscall-Settled saved c.timer c.regs words)
          (λ _. trap_exception-Settled saved c))
