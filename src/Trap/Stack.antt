-- ===== src/Trap/Stack.antt =====
-- src/macros.S and src/stack.S: the stack of each hart in the space that the kernel has for stacks.
use separation_kernel.Prelude.{ℕ, ◌+◌, ◌-◌, ◌*◌, ◌^◌, ◌≤◌, ◌<◌, ◌≡◌, ◌↔◌, arith}
use separation_kernel.Config.{min_hartid, max_hartid, n_harts, stack_size}
use separation_kernel.Proc.Reg
use separation_kernel.Trap.Hart.{Hart, load_sp, set_x}

-- `.fill` of src/stack.S, in bytes; the label `stack` is behind it.
abbrev pub stack_space : ℕ
stack_space = n_harts * stack_size

-- The stack of a hart goes down from sp for `stack_size` bytes.
abbrev pub IsInside : (stack sp : ℕ) → Type 0
IsInside stack sp = (stack + stack_size ≤ sp + stack_space) × (sp ≤ stack)

-- The stack of hart `mhartid` is below `stack` by its number and `min_hartid`, times the size: it is
-- inside the space exactly if these make less than the number of harts.
pub load_sp-IsInside :
    (stack : ℕ) (h : Hart)
    → 2 * stack_space ≤ stack
    → stack < 2 ^ 64
    → min_hartid ≤ h.mhartid
    → h.mhartid ≤ max_hartid
    → ((load_sp stack h).x Reg.sp ≡ stack - (min_hartid + h.mhartid) * stack_size)
      × (IsInside stack ((load_sp stack h).x Reg.sp) ↔ (min_hartid + h.mhartid < n_harts))
unfolding load_sp set_x
load_sp-IsInside stack h room lt low high =
    let top : (load_sp stack h).x Reg.sp ≡ stack - (min_hartid + h.mhartid) * stack_size =
      omega arith in
    (top, (λ inside. omega arith, λ few. (omega arith, omega arith)))
