-- ===== src/Proc/LoadPmp/Ranges.antt =====
-- src/proc.c: where the address registers of the memory protection come from.
use separation_kernel.Prelude.{
  ℕ, zero, suc, ◌+◌, ◌≡◌, ◌<◌, ◌≤◌, inl, inr, refl, sym, ◌∙◌, true, false, ◌==◌, if◌then◌else◌,
  Bool-cases, ==→eq, arith,
}
use separation_kernel.Prelude.Words.{◌<<<◌, ◌&&&◌, ◌|||◌}
use separation_kernel.Cap.{get_type}
use separation_kernel.Cap.CapType
use separation_kernel.Cap.Pmp
use separation_kernel.CapNode.{Heap}
use separation_kernel.Proc.{Proc, proc_cap}
use separation_kernel.Proc.Reg
use separation_kernel.Proc.LoadPmp.{PmpRegs, no_pmp, load_entry, load_entries, proc_load_pmp}

-- The address register `j` by the capability at index `j`: 0 where the process has switched the
-- registers off or the capability is not for a PMP frame.
abbrev pub range_of : Heap → Proc → (j : ℕ) → ℕ
range_of h p j =
    if (p.regs Reg.pmp &&& 0xff &&& 0x80) == 0
    then if get_type (proc_cap h p j) == CapType.pmp
      then (Pmp.get_addr (proc_cap h p j) <<< 10) ||| 0x3ff
      else 0
    else 0

==-refl : (i : ℕ) → (i == i) ≡ true
==-refl i = ground arith

load_entry-here :
    (h : Heap) (p : Proc) (i : ℕ) (r : PmpRegs)
    → r.addr i ≡ 0
    → (load_entry h p i r).addr i ≡ range_of h p i
unfolding load_entry
load_entry-here h p i r unset = elim (Bool-cases ((p.regs Reg.pmp &&& 0xff &&& 0x80) == 0)) [
  | inr off ↦ rw off unset
  | inl on ↦ rw on (elim (Bool-cases (get_type (proc_cap h p i) == CapType.pmp)) [
    | inr other ↦ rw other unset
    | inl frame ↦ rw frame (let here = ==-refl i in rw here refl)
  ])
]

load_entry-elsewhere :
    (h : Heap) (p : Proc) (i : ℕ) (r : PmpRegs) (j : ℕ)
    → (j == i) ≡ false
    → (load_entry h p i r).addr j ≡ r.addr j
unfolding load_entry
load_entry-elsewhere h p i r j away = elim (Bool-cases ((p.regs Reg.pmp &&& 0xff &&& 0x80) == 0)) [
  | inr off ↦ rw off refl
  | inl on ↦ rw on (elim (Bool-cases (get_type (proc_cap h p i) == CapType.pmp)) [
    | inr other ↦ rw other refl
    | inl frame ↦ rw (frame, away) refl
  ])
]

load_entries-below :
    (left : ℕ) (h : Heap) (p : Proc) (i : ℕ) (r : PmpRegs) (j : ℕ)
    → j < i
    → (load_entries left h p i r).addr j ≡ r.addr j
unfolding load_entries
load_entries-below zero h p i r j below = refl
load_entries-below (suc left) h p i r j below =
    load_entries-below left h p (i + 1) (load_entry h p i r) j (omega arith)
    ∙ load_entry-elsewhere h p i r j (ground arith)

load_entries-range :
    (left : ℕ) (h : Heap) (p : Proc) (i : ℕ) (r : PmpRegs) (j : ℕ)
    → i ≤ j
    → j < i + left
    → r.addr j ≡ 0
    → (load_entries left h p i r).addr j ≡ range_of h p j
unfolding load_entries
load_entries-range zero h p i r j from below unset = absurd (omega arith)
load_entries-range (suc left) h p i r j from below unset = elim (Bool-cases (j == i)) [
  | inl here ↦
      let same = ==→eq j i here in
      load_entries-below left h p (i + 1) (load_entry h p i r) j (omega arith)
      ∙ (rw same (load_entry-here h p i r (rw (sym same) unset)))
  | inr away ↦
      load_entries-range left h p (i + 1) (load_entry h p i r) j (ground arith) (omega arith)
        (load_entry-elsewhere h p i r j away ∙ unset)
]

-- Each of the eight address registers is set for a process to the range of the PMP capability in
-- the table of that process at the register's own index; it is 0 where that capability has another
-- type, and all are 0 if bit 7 of the register pmp of the process is set.
pub proc_load_pmp-range :
    (h : Heap) (p : Proc) (j : ℕ) → j < 8 → (proc_load_pmp h p).addr j ≡ range_of h p j
unfolding proc_load_pmp
proc_load_pmp-range h p j below =
    load_entries-range 8 h p 0 no_pmp j (omega arith) (omega arith) refl
