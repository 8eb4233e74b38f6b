-- ===== src/Trap/Restored.antt =====
-- src/macros.S and src/trap.S: the return to the process takes its registers from its `proc_t`.
use separation_kernel.Prelude.{
  ℕ, ◌+◌, ◌*◌, ◌<◌, ◌≡◌, refl, ◌∙◌, Bool, true, false, ◌||◌, ltb, ◌==◌, if◌then◌else◌, arith,
}
use separation_kernel.Proc.{Regs}
use separation_kernel.Proc.Reg
use separation_kernel.Trap.Hart.{
  Hart, load_all, restore_context, trap_resume_proc, leave_kernel, load_pc,
}
use separation_kernel.Trap.Moves.{
  Holds, Fits, Holds-same, are_own, moves_reg, below, below→, agree, agree→, load_all-rest,
  load_all-x, load_all-tp,
}

pub own_restored : are_own restore_context ≡ true
unfolding are_own
own_restored = refl

abbrev is_restored : ℕ → Bool
is_restored i = if ltb i 32 then ltb Reg.tp i || (i == Reg.ra) else false

pub restored_set : (i : ℕ) → i < Reg.count → moves_reg i restore_context ≡ is_restored i
unfolding below moves_reg
restored_set i lt =
    agree→ _ _
      (below→ Reg.count (λ i. agree (moves_reg i restore_context) (is_restored i)) refl i lt)

leave_kernel-x :
    (h : Hart) (i : ℕ)
    → Fits (h.x Reg.tp)
    → (leave_kernel h).x i ≡ (
        if i == Reg.sp
        then h.memory (h.x Reg.tp + 8 * i)
        else if i == Reg.gp
        then h.memory (h.x Reg.tp + 8 * i)
        else if i == Reg.tp
        then h.memory (h.x Reg.tp + 8 * i)
        else h.x i)
unfolding leave_kernel
leave_kernel-x h i fits = ground arith

leave_kernel-rest :
    (h : Hart)
    → let g = leave_kernel h in
      (g.pc ≡ h.mepc) × (g.mode ≡ 0) × (g.mscratch ≡ h.x Reg.tp) × (g.memory ≡ h.memory)
unfolding leave_kernel
leave_kernel-rest h = (refl, refl, refl, refl)

pub load_pc-rest :
    (h : Hart) (regs : Regs)
    → Fits (h.x Reg.tp)
    → Holds (h.x Reg.tp) regs h
    → let g = load_pc h in
      (g.mepc ≡ regs Reg.pc)
      × (g.x Reg.tp ≡ h.x Reg.tp)
      × (g.memory ≡ h.memory)
      × (g.x Reg.sp ≡ h.x Reg.sp)
      × (g.mscratch ≡ h.mscratch)
unfolding load_pc
load_pc-rest h regs fits holds =
    let held = holds Reg.pc (omega arith) in (ground arith, refl, refl, refl, refl)

-- What `restore_context` and the code behind it leave in the registers.
restored-x :
    (h : Hart) (regs : Regs)
    → Fits (h.x Reg.tp)
    → Holds (h.x Reg.tp) regs h
    → (i : ℕ) → 0 < i
    → i < 32
    → (leave_kernel (load_all restore_context h)).x i ≡ regs i
restored-x h regs fits holds i pos lt =
    let loaded = record h { x = (load_all restore_context h).x } in
    let listed = load_all-x fits restore_context h i refl own_restored in
    let at = load_all-tp fits restore_context h refl own_restored in
    let set = restored_set i (omega arith) in
    let held = holds i (omega arith) in
    rw (load_all-rest restore_context h) (ground (arith, leave_kernel-x loaded i))

restored-rest :
    (h : Hart)
    → Fits (h.x Reg.tp)
    → let g = leave_kernel (load_all restore_context h) in
      (g.pc ≡ h.mepc) × (g.mode ≡ 0) × (g.mscratch ≡ h.x Reg.tp) × (g.memory ≡ h.memory)
restored-rest h fits =
    let loaded = record h { x = (load_all restore_context h).x } in
    let at = load_all-tp fits restore_context h refl own_restored in
    let (pc, mode, scratch, memory) = leave_kernel-rest loaded in
    rw (load_all-rest restore_context h) (pc, mode, scratch ∙ at, memory)

-- The return to a process from its memory.
pub trap_resume_proc-Holds :
    (h : Hart) (regs : Regs)
    → Fits (h.x Reg.tp)
    → Holds (h.x Reg.tp) regs h
    → let g = trap_resume_proc h in
      (g.pc ≡ regs Reg.pc)
      × (g.mode ≡ 0)
      × (g.mscratch ≡ h.x Reg.tp)
      × (g.memory ≡ h.memory)
      × ((i : ℕ) → 0 < i → i < 32 → g.x i ≡ regs i)
unfolding trap_resume_proc
trap_resume_proc-Holds h regs fits holds =
    let first = load_pc h in
    let (counter, at, same, _, _) = load_pc-rest h regs fits holds in
    let there : Fits (first.x Reg.tp) = omega arith in
    let (pc, mode, scratch, memory) = restored-rest first there in
    (
      pc ∙ counter,
      mode,
      scratch ∙ at,
      memory ∙ same,
      restored-x first regs there (Holds-same h first at same holds),
    )
