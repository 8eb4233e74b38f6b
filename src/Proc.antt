-- ===== src/Proc.antt =====
-- inc/proc.h: a process and its registers.
pub mod LoadPmp
pub mod Reg
use separation_kernel.Prelude.{ℕ, ◌+◌, ◌%◌, ltb, ◌==◌, if◌then◌else◌}
use separation_kernel.Config.{n_caps}
use separation_kernel.Cap.{Cap}
use separation_kernel.CapNode.{Ptr, Heap, get_cap}
use separation_kernel.Proc.Reg

-- `regs[i]`, with the registers of `struct regs` by their index.
abbrev pub Regs : Type 0
Regs = ℕ → ℕ

pub record Proc : Type 0 where
  pub regs : Regs
  pub pid : ℕ
  pub state : ℕ
  pub dest_cidx : ℕ
  pub cap_table : Ptr
  pub client : Ptr

unfoldable pub set_reg : Proc → (reg value : ℕ) → Proc
set_reg p reg value = record p { regs = λ r. if r == reg then value else p.regs r }

unfoldable pub get_cap_node : Proc → (cid : ℕ) → Ptr
get_cap_node p cid = p.cap_table + cid % n_caps

unfoldable pub proc_cap : Heap → Proc → (cid : ℕ) → Cap
proc_cap h p cid = get_cap h (get_cap_node p cid)

unfoldable pub read_register : Proc → (regi : ℕ) → ℕ
read_register p regi = if ltb regi Reg.count then p.regs regi else 0

unfoldable pub write_register : Proc → (regi regv : ℕ) → Proc × ℕ
unfolding set_reg
write_register p regi regv =
    if ltb regi Reg.count then (set_reg p regi regv, p.regs regi) else (p, 0)
