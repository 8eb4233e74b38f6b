-- ===== src/Trap/Preempted.antt =====
-- src/trap.S: a timer interrupt of the kernel itself, while it restores the registers of a process.
use separation_kernel.Prelude.{
  ℕ, ◌^◌, ◌≤◌, ◌<◌, ◌≡◌, refl, sym, ap, ◌∙◌, true, false, [], ◌∷◌, ◌++◌, ltb, ◌==◌, arith,
}
use separation_kernel.Proc.{Regs}
use separation_kernel.Proc.Reg
use separation_kernel.Trap.Hart.{
  set_x, restore_context, Hart, preempted, Moves, load_all, trap_entry, trap_timer_preempted,
  swap_tp, load_pc, trap_resume_proc,
}
use separation_kernel.Trap.Moves.{
  Holds, Fits, Holds-same, are_own, moves_reg, own-head, load_all-x, load_all-rest, load_all-tp,
}
use separation_kernel.Trap.Restored.{
  own_restored, restored_set, load_pc-rest, trap_resume_proc-Holds,
}

-- The start of a list has the properties of the whole.
are_own-++ : (before after : Moves) → are_own (before ++ after) ≡ true → are_own before ≡ true
unfolding are_own
are_own-++ [] after own = refl
are_own-++ ((reg, offset) ∷ before) after own =
    let (small, apart, place, rest) = own-head reg offset (before ++ after) own in
    let start = are_own-++ before after rest in ground arith

moves_reg-++ :
    (i : ℕ) (before after : Moves)
    → moves_reg i (before ++ after) ≡ false
    → moves_reg i before ≡ false
unfolding moves_reg
moves_reg-++ i [] after none = refl
moves_reg-++ i ((reg, offset) ∷ before) after none =
    let later = moves_reg-++ i before after in ground arith

-- The entry with mscratch 0, from an interrupt.
preempted_entry :
    (stack global_pointer : ℕ) (h : Hart)
    → h.mscratch ≡ 0
    → 2 ^ 63 ≤ h.mcause
    → (g : Hart) × (trap_entry stack global_pointer h ≡ preempted g)
      × (g.x Reg.tp ≡ h.x Reg.tp)
      × (g.x Reg.sp ≡ h.x Reg.sp)
      × (g.mscratch ≡ 0)
      × (g.memory ≡ h.memory)
unfolding trap_entry trap_timer_preempted swap_tp
preempted_entry stack global_pointer h clear interrupt =
    let zero_tp : (h.mscratch == 0) ≡ true = ground arith in
    let negative : ltb h.mcause (2 ^ 63) ≡ false = ground arith in
    let h1 = swap_tp h in
    let g = set_x Reg.t0 h.mcause (record (set_x Reg.tp h1.mscratch h1) { mscratch = 0 }) in
    (g, (rw zero_tp (rw negative refl)), refl, refl, refl, refl)

-- A timer interrupt after any part of `restore_context`, from a kernel that has tp at the process
-- and mscratch 0, gets to `sched_yield` with tp, sp, mscratch and the registers of the process in
-- memory as they were: returning to the process from there gives it all of them.
pub trap_resume_proc-preempted :
    (stack global_pointer : ℕ) (h : Hart) (regs : Regs) (before after : Moves) (mcause mepc : ℕ)
    → restore_context ≡ before ++ after
    → h.mscratch ≡ 0
    → Fits (h.x Reg.tp)
    → Holds (h.x Reg.tp) regs h
    → 2 ^ 63 ≤ mcause
    → let trapped = record (load_all before (load_pc h)) { mcause = mcause; mepc = mepc } in
      (g : Hart) × (trap_entry stack global_pointer trapped ≡ preempted g)
      × (g.x Reg.tp ≡ h.x Reg.tp)
      × (g.x Reg.sp ≡ h.x Reg.sp)
      × (g.mscratch ≡ 0)
      × (g.memory ≡ h.memory)
      × ((trap_resume_proc g).pc ≡ regs Reg.pc)
      × ((i : ℕ) → 0 < i → i < 32 → (trap_resume_proc g).x i ≡ regs i)
trap_resume_proc-preempted stack global_pointer h regs before after mcause mepc split clear fits
      holds interrupt =
    let first = load_pc h in
    let own = are_own-++ before after (ap are_own (sym split) ∙ own_restored) in
    let no_sp =
      moves_reg-++ Reg.sp before after
        (ap (moves_reg Reg.sp) (sym split) ∙ restored_set Reg.sp (omega arith)) in
    let (_, at, same, stack_same, scratch) = load_pc-rest h regs fits holds in
    let there : Fits (first.x Reg.tp) = omega arith in
    let part = load_all before first in
    let rest = load_all-rest before first in
    let part_tp = load_all-tp there before first refl own ∙ at in
    let part_sp : part.x Reg.sp ≡ h.x Reg.sp =
      load_all-x there before first Reg.sp refl own ∙ rw no_sp stack_same in
    let part_memory = ap (λ (q : Hart). q.memory) rest ∙ same in
    let part_scratch = ap (λ (q : Hart). q.mscratch) rest ∙ scratch in
    let trapped = record part { mcause = mcause; mepc = mepc } in
    let (g, entry, tp, sp, zeroed, memory) =
      preempted_entry stack global_pointer trapped (part_scratch ∙ clear) interrupt in
    let g_tp : g.x Reg.tp ≡ h.x Reg.tp = tp ∙ part_tp in
    let g_memory : g.memory ≡ h.memory = memory ∙ part_memory in
    let g_fits : Fits (g.x Reg.tp) = omega arith in
    let g_holds : Holds (g.x Reg.tp) regs g = Holds-same h g g_tp g_memory holds in
    let (pc, _, _, _, registers) = trap_resume_proc-Holds g regs g_fits g_holds in
    (g, entry, g_tp, sp ∙ part_sp, zeroed, g_memory, pc, registers)
