-- ===== src/Tests/Traps.antt =====
-- The trap entry and its stacks at concrete registers and memory.
use separation_kernel.Prelude.{
  ℕ, zero, suc, ◌^◌, ◌+◌, ◌*◌, ◌-◌, ◌<◌, ◌≡◌, ◌↔◌, refl, none, false, ◌==◌, [], ◌∷◌, ltb,
  if◌then◌else◌, arith,
}
use separation_kernel.Config.{min_hartid, n_harts, stack_size}
use separation_kernel.Proc.Reg
use separation_kernel.Kernel.{Kernel, ok, current_proc}
use separation_kernel.Trap.{save_context}
use separation_kernel.Trap.AsmConsts
use separation_kernel.Trap.Hart.{
  Hart, process, preempted, load_all, load_pc, load_gp, save_pc_tp, store_all, load_sp,
  restore_context, Moves, enter_kernel, swap_tp, trap_entry, trap_resume_proc,
}
use separation_kernel.Trap.Moves.{Holds}
use separation_kernel.Trap.Saved.{trapped_regs, trap_entry-Holds}
use separation_kernel.Trap.Context.{trap_resume_proc-trap_entry}
use separation_kernel.Trap.Preempted.{trap_resume_proc-preempted}
use separation_kernel.Trap.Stack.{IsInside, load_sp-IsInside}
use separation_kernel.Cap.{null_cap}

-- Hart 3 runs a process at 0x80010000; x1 to x31 are 1001 to 1031, and the memory has its addresses
-- for registers.
abbrev user_hart : Hart
user_hart = record {
  x = λ i. 1000 + i;
  pc = 0;
  mode = 3;
  mhartid = 3;
  mepc = 77;
  mcause = 8;
  mscratch = 2147549184;
  mstatus = 0;
  memory = λ a. a;
}

abbrev base : ℕ
base = 2147549184

abbrev user_kernel : Kernel
user_kernel = record {
  procs = λ i. record {
    regs = λ r. base + 8 * r;
    pid = i;
    state = 1;
    dest_cidx = 0;
    cap_table = 64 * i;
    client = 0;
  };
  heap = λ p. record { cap = null_cap; prev = 0; next = 0 };
  schedule = λ i h. 0;
  receivers = λ c i. none;
  current = 2;
  preemption = false;
}

-- The entry of `user_hart`, with a stack that ends at 0x80008000.
unfoldable entered_hart : Hart
unfolding enter_kernel swap_tp
entered_hart = enter_kernel 2147516416 2147500000 (swap_tp user_hart)

trap_entry-Holds_example :
    (g : Hart) × (k' : Kernel) × (trap_entry 2147516416 2147500000 user_hart ≡ process g)
    × (save_context (trapped_regs user_hart) user_kernel ≡ ok tt k')
    × (g.x Reg.tp ≡ base)
    × (g.mscratch ≡ 0)
    × Holds base (current_proc k').regs g
trap_entry-Holds_example =
    trap_entry-Holds 2147516416 2147500000 user_hart user_kernel (ground arith) (omega arith)
      (λ i lt. refl)

-- The kernel has used every register but tp, and the rest of the memory.
abbrev resuming_hart : Hart
resuming_hart = record entered_hart {
  x = λ i. if i == Reg.tp then base else 5;
  memory = λ a. if ltb a base then 9 else entered_hart.memory a;
}

trap_resume_proc-trap_entry_example :
    let r = trap_resume_proc resuming_hart in
    (r.pc ≡ 77) × (r.mode ≡ 0) × (r.mscratch ≡ base) × ((i : ℕ) → 0 < i → i < 32 → r.x i ≡ 1000 + i)
unfolding entered_hart trap_entry load_sp load_gp save_pc_tp store_all
trap_resume_proc-trap_entry_example =
    trap_resume_proc-trap_entry 2147516416 2147500000 user_hart entered_hart resuming_hart
      (ground arith) (omega arith) refl refl (λ i lt. ground arith)

-- A timer interrupt after the first three loads.
abbrev interrupted_hart : Hart
interrupted_hart = record user_hart { x = λ i. if i == Reg.tp then base else 5; mscratch = 0 }

abbrev loads : Moves
loads = (Reg.t6, AsmConsts.regs_t6) ∷ (Reg.t5, AsmConsts.regs_t5) ∷ (Reg.t4, AsmConsts.regs_t4) ∷ []

abbrev without : ℕ → Moves → Moves
without zero moves = moves
without (suc n) [] = []
without (suc n) (move ∷ moves) = without n moves

trap_resume_proc-preempted_example :
    let trapped = record (load_all loads (load_pc interrupted_hart)) {
      mcause = 2 ^ 63 + 7;
      mepc = 4;
    } in
    (g : Hart) × (trap_entry 2147516416 2147500000 trapped ≡ preempted g)
    × (g.x Reg.tp ≡ base)
    × (g.x Reg.sp ≡ 5)
    × (g.mscratch ≡ 0)
    × (g.memory ≡ interrupted_hart.memory)
    × ((trap_resume_proc g).pc ≡ base)
    × ((i : ℕ) → 0 < i → i < 32 → (trap_resume_proc g).x i ≡ base + 8 * i)
trap_resume_proc-preempted_example =
    trap_resume_proc-preempted 2147516416 2147500000 interrupted_hart (λ i. base + 8 * i) loads
      (without 3 restore_context) (2 ^ 63 + 7) 4 refl refl (omega arith) (λ i lt. refl)
      (omega arith)

load_sp-IsInside_example :
    let sp = (load_sp 2147516416 user_hart).x Reg.sp in
    (sp ≡ 2147516416 - (min_hartid + 3) * stack_size)
    × (IsInside 2147516416 sp ↔ (min_hartid + 3 < n_harts))
load_sp-IsInside_example =
    load_sp-IsInside 2147516416 user_hart (omega arith) (omega arith) (omega arith) (omega arith)
