-- ===== src/Trap/Context.antt =====
-- src/trap.S: from the trap of a process to the return to it.
use separation_kernel.Prelude.{
  ℕ, ◌+◌, ◌*◌, ◌<◌, ◌≡◌, ◌≢◌, refl, sym, ap, ◌∙◌, ltb, true, false, ◌==◌, arith,
}
use separation_kernel.Proc.Reg
use separation_kernel.Trap.Hart.{
  Hart, Entry, process, preempted, hang, swap_tp, enter_kernel, trap_entry, trap_resume_proc,
}
use separation_kernel.Trap.Moves.{Fits}
use separation_kernel.Trap.Saved.{
  trapped_regs, trap_entry-process, entered-memory, enter_kernel-rest, saved-tp, swapped,
}
use separation_kernel.Trap.Restored.{trap_resume_proc-Holds}

entered : Hart → Entry → Hart
entered h (process g) = g
entered h (preempted g) = g
entered h hang = h

-- A process that traps, and that is returned to when the kernel has tp at it and its saved pc and x1
-- to x31 as the entry left them, goes on at the trapped instruction, as a process, with every
-- register that it had. mscratch is at the process again, for its next trap.
pub trap_resume_proc-trap_entry :
    (stack global_pointer : ℕ) (h g g' : Hart)
    → h.mscratch ≢ 0
    → Fits h.mscratch
    → trap_entry stack global_pointer h ≡ process g
    → g'.x Reg.tp ≡ g.x Reg.tp
    → ((i : ℕ) → i < 32 → g'.memory (g.x Reg.tp + 8 * i) ≡ g.memory (g.x Reg.tp + 8 * i))
    → let r = trap_resume_proc g' in
      (r.pc ≡ h.mepc)
      × (r.mode ≡ 0)
      × (r.mscratch ≡ h.mscratch)
      × ((i : ℕ) → 0 < i → i < 32 → r.x i ≡ h.x i)
unfolding entered
trap_resume_proc-trap_entry stack global_pointer h g g' apart fits entry tp kept =
    let e = enter_kernel stack global_pointer (swap_tp h) in
    let same : e ≡ g =
      ap (entered h) (sym (trap_entry-process stack global_pointer h apart) ∙ entry) in
    let (_, e_tp, _) = enter_kernel-rest stack global_pointer (swap_tp h) in
    let (stay, _) = saved-tp (swap_tp h) in
    let (at, _, _, _, _) = swapped h in
    let g_tp : g.x Reg.tp ≡ h.mscratch =
      ap (λ (q : Hart). q.x Reg.tp) (sym same) ∙ e_tp ∙ stay ∙ at in
    let g'_fits : Fits (g'.x Reg.tp) = omega arith in
    let (pc, mode, scratch, _, registers) =
      trap_resume_proc-Holds g' (λ i. g'.memory (g'.x Reg.tp + 8 * i)) g'_fits (λ i lt. refl) in
    let untouched =
      entered-memory stack global_pointer h (λ i. h.memory (h.mscratch + 8 * i)) fits
        (λ i lt. refl) in
    let saved : (i : ℕ) → i < 32 → g'.memory (g'.x Reg.tp + 8 * i) ≡ trapped_regs h i = λ i lt.
      let low : ltb i 32 ≡ true = ground arith in
      ap (λ (b : ℕ). g'.memory (b + 8 * i)) tp
      ∙ kept i lt
      ∙ ap (λ (b : ℕ). g.memory (b + 8 * i)) g_tp
      ∙ ap (λ (q : Hart). q.memory (h.mscratch + 8 * i)) (sym same)
      ∙ untouched i (omega arith)
      ∙ (rw low refl) in
    (
      pc ∙ saved Reg.pc (omega arith),
      mode,
      scratch ∙ tp ∙ g_tp,
      λ i pos lt.
          let other : (i == Reg.pc) ≡ false = ground arith in
          registers i pos lt ∙ saved i lt ∙ (rw other refl),
    )
