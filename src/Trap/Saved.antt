-- ===== src/Trap/Saved.antt =====
-- src/macros.S and src/trap.S: the entry of the kernel puts the registers of the process into its
-- `proc_t`.
use separation_kernel.Prelude.{
  ℕ, ◌+◌, ◌*◌, ◌<◌, ◌≡◌, ◌≢◌, refl, ◌∙◌, Bool, true, false, ltb, ◌==◌, if◌then◌else◌, arith,
}
use separation_kernel.Proc.{Regs}
use separation_kernel.Proc.Reg
use separation_kernel.Kernel.{Kernel, ok, current_proc, set_proc}
use separation_kernel.Trap.{save_context}
use separation_kernel.Trap.Hart
use separation_kernel.Trap.Hart.{
  Hart, Entry, process, preempted, Moves, set_x, sd, ld, store_all, load_all, restore_context,
  enter_kernel, swap_tp, trap_entry, trap_timer_preempted, trap_resume_proc, load_sp, load_gp, mret,
  save_pc_tp, leave_kernel, load_pc,
}
use separation_kernel.Trap.Moves.{
  Holds, Fits, are_own, moves_reg, below, below→, agree, agree→, store_all-memory, store_all-rest,
}

-- The registers of the process at a trap, as the model of the whole kernel has them.
abbrev pub trapped_regs : Hart → Regs
trapped_regs h i = if i == Reg.pc then h.mepc else h.x i

own_saved : are_own Hart.save_context ≡ true
unfolding are_own
own_saved = refl

abbrev is_saved : ℕ → Bool
is_saved i = if i == Reg.pc then false else if i == Reg.tp then false else ltb i 32

-- `save_context` has every register but tp, and `restore_context` all but sp, gp and tp.
saved_set : (i : ℕ) → i < Reg.count → moves_reg i Hart.save_context ≡ is_saved i
unfolding below moves_reg
saved_set i lt =
    agree→ _ _
      (below→ Reg.count (λ i. agree (moves_reg i Hart.save_context) (is_saved i)) refl i lt)

save_pc_tp-memory :
    (h : Hart) (i : ℕ)
    → Fits (h.x Reg.tp)
    → i < Reg.count
    → (save_pc_tp h).memory (h.x Reg.tp + 8 * i) ≡ (
        if i == Reg.tp
        then h.mscratch
        else if i == Reg.pc
        then h.mepc
        else h.memory (h.x Reg.tp + 8 * i))
unfolding save_pc_tp
save_pc_tp-memory h i fits lt = ground arith

-- The memory of a process after the entry, from what its registers were before.
saved-memory :
    (h : Hart) (regs : Regs) (i : ℕ)
    → Fits (h.x Reg.tp)
    → i < Reg.count
    → Holds (h.x Reg.tp) regs h
    → (save_pc_tp (store_all Hart.save_context h)).memory (h.x Reg.tp + 8 * i) ≡ (
        if ltb i 32
        then (if i == Reg.pc then h.mepc else if i == Reg.tp then h.mscratch else h.x i)
        else regs i)
saved-memory h regs i fits lt holds =
    let stored = record h { memory = (store_all Hart.save_context h).memory } in
    let listed = store_all-memory fits Hart.save_context h i refl own_saved in
    let set = saved_set i lt in
    let held = holds i lt in
    rw (store_all-rest Hart.save_context h) (ground (arith, save_pc_tp-memory stored i fits lt))

-- `load_gp`, `load_sp` and the reading of mcause leave the memory, tp and mscratch.
pub enter_kernel-rest :
    (stack global_pointer : ℕ) (h : Hart)
    → let h6 = save_pc_tp (store_all Hart.save_context h) in
      let g = enter_kernel stack global_pointer h in
      (g.memory ≡ h6.memory) × (g.x Reg.tp ≡ h6.x Reg.tp) × (g.mscratch ≡ h6.mscratch)
unfolding enter_kernel load_sp load_gp set_x
enter_kernel-rest stack global_pointer h = (refl, refl, refl)

pub saved-tp :
    (h : Hart)
    → let h6 = save_pc_tp (store_all Hart.save_context h) in
      (h6.x Reg.tp ≡ h.x Reg.tp) × (h6.mscratch ≡ 0)
unfolding save_pc_tp
saved-tp h = rw (store_all-rest Hart.save_context h) (refl, refl)

pub swapped :
    (h : Hart)
    → let g = swap_tp h in
      (g.x Reg.tp ≡ h.mscratch)
      × (g.mscratch ≡ h.x Reg.tp)
      × (g.mepc ≡ h.mepc)
      × (g.memory ≡ h.memory)
      × ((i : ℕ) → i ≢ Reg.tp → g.x i ≡ h.x i)
unfolding swap_tp set_x
swapped h = (refl, refl, refl, refl, λ i apart. ground arith)

pub trap_entry-process :
    (stack global_pointer : ℕ) (h : Hart)
    → h.mscratch ≢ 0
    → trap_entry stack global_pointer h ≡ process (enter_kernel stack global_pointer (swap_tp h))
unfolding trap_entry
trap_entry-process stack global_pointer h apart =
    let (at, _, _, _, _) = swapped h in
    let other : ((swap_tp h).x Reg.tp == 0) ≡ false = ground arith in rw other refl

pub entered-memory :
    (stack global_pointer : ℕ) (h : Hart) (regs : Regs)
    → Fits h.mscratch
    → Holds h.mscratch regs h
    → Holds h.mscratch
        (λ i. if ltb i 32 then trapped_regs h i else regs i)
        (enter_kernel stack global_pointer (swap_tp h))
unfolding swap_tp set_x
entered-memory stack global_pointer h regs fits holds i lt =
    let (same, _, _) = enter_kernel-rest stack global_pointer (swap_tp h) in
    let kept = saved-memory (swap_tp h) regs i fits lt holds in rw same (kept ∙ ground arith)

-- A trap of a process gets to the kernel with tp at the process and mscratch 0, and the memory
-- has the registers that the model of the kernel saves: pc, x1 to x31 as they were, and the rest
-- of the process's registers untouched.
pub trap_entry-Holds :
    (stack global_pointer : ℕ) (h : Hart) (k : Kernel)
    → h.mscratch ≢ 0
    → Fits h.mscratch
    → Holds h.mscratch (current_proc k).regs h
    → (g : Hart) × (k' : Kernel) × (trap_entry stack global_pointer h ≡ process g)
      × (save_context (trapped_regs h) k ≡ ok tt k')
      × (g.x Reg.tp ≡ h.mscratch)
      × (g.mscratch ≡ 0)
      × Holds h.mscratch (current_proc k').regs g
unfolding save_context set_proc
trap_entry-Holds stack global_pointer h k apart fits holds =
    let r = trapped_regs h in
    let p = current_proc k in
    let k' = set_proc k k.current (record p { regs = λ i. if ltb i 32 then r i else p.regs i }) in
    let (_, tp, scratch) = enter_kernel-rest stack global_pointer (swap_tp h) in
    let (same, zeroed) = saved-tp (swap_tp h) in
    let (at, _, _, _, _) = swapped h in
    let here : (k.current == k.current) ≡ true = ground arith in
    (
      enter_kernel stack global_pointer (swap_tp h),
      k',
      trap_entry-process stack global_pointer h apart,
      refl,
      tp ∙ same ∙ at,
      scratch ∙ zeroed,
      λ i lt. rw here (entered-memory stack global_pointer h p.regs fits holds i lt),
    )
