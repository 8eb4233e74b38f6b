-- ===== src/Trap/Hart.antt =====
-- src/macros.S and src/trap.S: the instructions that put the registers of a process into its `proc_t`
-- and get them back, and those that find the stack of a hart. x1 to x31 have the indices that
-- `struct regs` gives them.
use separation_kernel.Prelude.{
  ℕ, ◌+◌, ◌-◌, ◌*◌, ◌/◌, ◌%◌, ◌^◌, List, [], ◌∷◌, ltb, ◌==◌, if◌then◌else◌,
}
use separation_kernel.Config.{min_hartid, log_stack_size, stack_size}
use separation_kernel.Proc.Reg
use separation_kernel.Trap.AsmConsts

-- The registers of a hart that this code uses, and the memory, by the addresses of its words of
-- eight bytes. `mode` is the privilege that the hart runs with, 0 for a process.
pub record Hart : Type 0 where
  pub x : ℕ → ℕ
  pub pc : ℕ
  pub mode : ℕ
  pub mhartid : ℕ
  pub mepc : ℕ
  pub mcause : ℕ
  pub mscratch : ℕ
  pub mstatus : ℕ
  pub memory : ℕ → ℕ

unfoldable pub set_x : (reg value : ℕ) → Hart → Hart
set_x reg value h = record h { x = λ r. if r == reg then value else h.x r }

-- `sd reg,offset(tp)`.
unfoldable pub sd : (reg offset : ℕ) → Hart → Hart
sd reg offset h = record h {
  memory = λ a. if a == (h.x Reg.tp + offset) % 2 ^ 64 then h.x reg else h.memory a;
}

-- `ld reg,offset(tp)`.
unfoldable pub ld : (reg offset : ℕ) → Hart → Hart
unfolding set_x
ld reg offset h = set_x reg (h.memory ((h.x Reg.tp + offset) % 2 ^ 64)) h

-- A list of stores or loads, in its order: the register and the offset from the process.
abbrev pub Moves : Type 0
Moves = List (ℕ × ℕ)

unfoldable pub store_all : Moves → Hart → Hart
unfolding sd
store_all [] h = h
store_all ((reg, offset) ∷ moves) h = store_all moves (sd reg (AsmConsts.proc_regs + offset) h)

unfoldable pub load_all : Moves → Hart → Hart
unfolding ld
load_all [] h = h
load_all ((reg, offset) ∷ moves) h = load_all moves (ld reg (AsmConsts.proc_regs + offset) h)

abbrev pub save_context : Moves
save_context =
    (Reg.ra, AsmConsts.regs_ra)
    ∷ (Reg.sp, AsmConsts.regs_sp)
    ∷ (Reg.gp, AsmConsts.regs_gp)
    ∷ (Reg.t0, AsmConsts.regs_t0)
    ∷ (Reg.t1, AsmConsts.regs_t1)
    ∷ (Reg.t2, AsmConsts.regs_t2)
    ∷ (Reg.s0, AsmConsts.regs_s0)
    ∷ (Reg.s1, AsmConsts.regs_s1)
    ∷ (Reg.a0, AsmConsts.regs_a0)
    ∷ (Reg.a1, AsmConsts.regs_a1)
    ∷ (Reg.a2, AsmConsts.regs_a2)
    ∷ (Reg.a3, AsmConsts.regs_a3)
    ∷ (Reg.a4, AsmConsts.regs_a4)
    ∷ (Reg.a5, AsmConsts.regs_a5)
    ∷ (Reg.a6, AsmConsts.regs_a6)
    ∷ (Reg.a7, AsmConsts.regs_a7)
    ∷ (Reg.s2, AsmConsts.regs_s2)
    ∷ (Reg.s3, AsmConsts.regs_s3)
    ∷ (Reg.s4, AsmConsts.regs_s4)
    ∷ (Reg.s5, AsmConsts.regs_s5)
    ∷ (Reg.s6, AsmConsts.regs_s6)
    ∷ (Reg.s7, AsmConsts.regs_s7)
    ∷ (Reg.s8, AsmConsts.regs_s8)
    ∷ (Reg.s9, AsmConsts.regs_s9)
    ∷ (Reg.s10, AsmConsts.regs_s10)
    ∷ (Reg.s11, AsmConsts.regs_s11)
    ∷ (Reg.t3, AsmConsts.regs_t3)
    ∷ (Reg.t4, AsmConsts.regs_t4)
    ∷ (Reg.t5, AsmConsts.regs_t5)
    ∷ (Reg.t6, AsmConsts.regs_t6)
    ∷ []

abbrev pub restore_context : Moves
restore_context =
    (Reg.t6, AsmConsts.regs_t6)
    ∷ (Reg.t5, AsmConsts.regs_t5)
    ∷ (Reg.t4, AsmConsts.regs_t4)
    ∷ (Reg.t3, AsmConsts.regs_t3)
    ∷ (Reg.s11, AsmConsts.regs_s11)
    ∷ (Reg.s10, AsmConsts.regs_s10)
    ∷ (Reg.s9, AsmConsts.regs_s9)
    ∷ (Reg.s8, AsmConsts.regs_s8)
    ∷ (Reg.s7, AsmConsts.regs_s7)
    ∷ (Reg.s6, AsmConsts.regs_s6)
    ∷ (Reg.s5, AsmConsts.regs_s5)
    ∷ (Reg.s4, AsmConsts.regs_s4)
    ∷ (Reg.s3, AsmConsts.regs_s3)
    ∷ (Reg.s2, AsmConsts.regs_s2)
    ∷ (Reg.a7, AsmConsts.regs_a7)
    ∷ (Reg.a6, AsmConsts.regs_a6)
    ∷ (Reg.a5, AsmConsts.regs_a5)
    ∷ (Reg.a4, AsmConsts.regs_a4)
    ∷ (Reg.a3, AsmConsts.regs_a3)
    ∷ (Reg.a2, AsmConsts.regs_a2)
    ∷ (Reg.a1, AsmConsts.regs_a1)
    ∷ (Reg.a0, AsmConsts.regs_a0)
    ∷ (Reg.s1, AsmConsts.regs_s1)
    ∷ (Reg.s0, AsmConsts.regs_s0)
    ∷ (Reg.t2, AsmConsts.regs_t2)
    ∷ (Reg.t1, AsmConsts.regs_t1)
    ∷ (Reg.t0, AsmConsts.regs_t0)
    ∷ (Reg.ra, AsmConsts.regs_ra)
    ∷ []

-- `load_sp`, with `stack` where the linker puts the label of src/stack.S.
unfoldable pub load_sp : (stack : ℕ) → Hart → Hart
unfolding set_x
load_sp stack h =
    let h1 = set_x Reg.sp ((stack + 2 ^ 64 - min_hartid * stack_size) % 2 ^ 64) h in
    let h2 = set_x Reg.t1 h1.mhartid h1 in
    let h3 = set_x Reg.t1 (h2.x Reg.t1 * 2 ^ log_stack_size % 2 ^ 64) h2 in
    set_x Reg.sp ((h3.x Reg.sp + 2 ^ 64 - h3.x Reg.t1) % 2 ^ 64) h3

unfoldable pub load_gp : (global_pointer : ℕ) → Hart → Hart
unfolding set_x
load_gp global_pointer h = set_x Reg.gp global_pointer h

-- `csrrw tp,mscratch,tp`.
unfoldable pub swap_tp : Hart → Hart
unfolding set_x
swap_tp h = record (set_x Reg.tp h.mscratch h) { mscratch = h.x Reg.tp }

-- The stores behind `save_context`, of pc and tp.
unfoldable pub save_pc_tp : Hart → Hart
unfolding set_x sd
save_pc_tp h2 =
    let h3 = set_x Reg.s0 h2.mepc h2 in
    let h4 = record (set_x Reg.t1 h3.mscratch h3) { mscratch = 0 } in
    let h5 = sd Reg.s0 (AsmConsts.proc_regs + AsmConsts.regs_pc) h4 in
    sd Reg.t1 (AsmConsts.proc_regs + AsmConsts.regs_tp) h5

-- `trap_entry` behind its first test, up to the test of mcause.
unfoldable pub enter_kernel : (stack global_pointer : ℕ) → Hart → Hart
enter_kernel stack global_pointer h1 =
    let h6 = save_pc_tp (store_all save_context h1) in
    let h7 = load_sp stack (load_gp global_pointer h6) in set_x Reg.s1 h7.mcause h7

-- Where `trap_entry` gets to: the test of mcause for a process, `sched_yield` for a timer interrupt
-- of the kernel itself, and `hang` for any other trap of it.
pub data Entry : Type 0 where
  process : Hart → Entry
  preempted : Hart → Entry
  hang : Entry

-- mcause is negative for an interrupt.
unfoldable pub trap_timer_preempted : Hart → Entry
unfolding set_x
trap_timer_preempted h1 =
    let h2 = record (set_x Reg.tp h1.mscratch h1) { mscratch = 0 } in
    let h3 = set_x Reg.t0 h2.mcause h2 in if ltb (h3.x Reg.t0) (2 ^ 63) then hang else preempted h3

unfoldable pub trap_entry : (stack global_pointer : ℕ) → Hart → Entry
trap_entry stack global_pointer h =
    let h1 = swap_tp h in
    if h1.x Reg.tp == 0
    then trap_timer_preempted h1
    else process (enter_kernel stack global_pointer h1)

abbrev pub mstatus_ie : ℕ
mstatus_ie = 8

-- The privilege of mstatus.MPP is the one after `mret`.
unfoldable pub mret : Hart → Hart
mret h = record h { pc = h.mepc; mode = h.mstatus / 2 ^ 11 % 4 }

-- `trap_resume_proc` behind `restore_context`.
unfoldable pub leave_kernel : Hart → Hart
unfolding ld mret
leave_kernel h2 =
    let h3 = record h2 { mstatus = 0; mscratch = h2.x Reg.tp } in
    let h4 = ld Reg.sp (AsmConsts.proc_regs + AsmConsts.regs_sp) h3 in
    let h5 = ld Reg.gp (AsmConsts.proc_regs + AsmConsts.regs_gp) h4 in
    let h6 = ld Reg.tp (AsmConsts.proc_regs + AsmConsts.regs_tp) h5 in mret h6

-- `trap_resume_proc` up to `restore_context`.
unfoldable pub load_pc : Hart → Hart
unfolding ld
load_pc h =
    let h0 = record h { mstatus = mstatus_ie } in
    let h1 = ld Reg.t0 (AsmConsts.proc_regs + AsmConsts.regs_pc) h0 in
    record h1 { mepc = h1.x Reg.t0 }

unfoldable pub trap_resume_proc : Hart → Hart
trap_resume_proc h = leave_kernel (load_all restore_context (load_pc h))
