-- ===== src/Proc/LoadPmp.antt =====
-- src/proc.c: `proc_load_pmp`, up to the stores into the registers of the hart.
pub mod Ranges
use separation_kernel.Prelude.{
  ℕ, zero, suc, ◌+◌, ◌*◌, ◌%◌, ◌^◌, ◌≡◌, ◌<◌, refl, Bool, true, false, not, ◌==◌, if◌then◌else◌,
  arith,
}
use separation_kernel.Prelude.Words.{◌<<<◌, ◌&&&◌, ◌|||◌}
use separation_kernel.Cap.{Cap, get_type}
use separation_kernel.Cap.CapType
use separation_kernel.Cap.Pmp
use separation_kernel.CapNode.{Heap}
use separation_kernel.Proc.{Proc, proc_cap}
use separation_kernel.Proc.Reg

-- `pmpcfg` and `pmpaddr`.
pub record PmpRegs : Type 0 where
  pub cfg : ℕ
  pub addr : ℕ → ℕ

abbrev pub no_pmp : PmpRegs
no_pmp = record { cfg = 0; addr = λ i. 0 }

abbrev pub enter_pmp : Cap → (i : ℕ) → PmpRegs → PmpRegs
enter_pmp cap i r = record {
  cfg = r.cfg ||| ((Pmp.get_rwx cap <<< (i * 8)) ||| 0x18);
  addr = λ j. if j == i then (Pmp.get_addr cap <<< 10) ||| 0x3ff else r.addr j;
}

-- One round of the loop.
unfoldable pub load_entry : Heap → Proc → (i : ℕ) → PmpRegs → PmpRegs
load_entry h p i r =
    let pmpidx = p.regs Reg.pmp &&& 0xff in
    let cap = proc_cap h p i in
    if not ((pmpidx &&& 0x80) == 0)
    then r
    else if not (get_type cap == CapType.pmp)
    then r
    else enter_pmp cap i r

-- The loop from entry `i` on, with the rounds left.
unfoldable pub load_entries : ℕ → Heap → Proc → (i : ℕ) → PmpRegs → PmpRegs
unfolding load_entry
load_entries zero h p i r = r
load_entries (suc left) h p i r = load_entries left h p (i + 1) (load_entry h p i r)

unfoldable pub proc_load_pmp : Heap → Proc → PmpRegs
unfolding load_entries
proc_load_pmp h p = load_entries 8 h p 0 no_pmp
