-- ===== src/Trap/AsmConsts.antt =====
-- gen/asm_consts.c: the offsets that the assembly code addresses the structures of inc/proc.h and
-- inc/cap_node.h by, in bytes. Every member before the ones that are named is a word of eight bytes.
use Prim.Native.Nat.{ℕ, ◌+◌, ◌*◌}
use separation_kernel.Proc.Reg

-- `offsetof(regs_t, member)`, of a member by its index.
abbrev pub offset_of : (index : ℕ) → ℕ
offset_of index = 8 * index

abbrev pub regs_pc : ℕ
regs_pc = offset_of Reg.pc

abbrev pub regs_ra : ℕ
regs_ra = offset_of Reg.ra

abbrev pub regs_sp : ℕ
regs_sp = offset_of Reg.sp

abbrev pub regs_gp : ℕ
regs_gp = offset_of Reg.gp

abbrev pub regs_tp : ℕ
regs_tp = offset_of Reg.tp

abbrev pub regs_t0 : ℕ
regs_t0 = offset_of Reg.t0

abbrev pub regs_t1 : ℕ
regs_t1 = offset_of Reg.t1

abbrev pub regs_t2 : ℕ
regs_t2 = offset_of Reg.t2

abbrev pub regs_t3 : ℕ
regs_t3 = offset_of Reg.t3

abbrev pub regs_t4 : ℕ
regs_t4 = offset_of Reg.t4

abbrev pub regs_t5 : ℕ
regs_t5 = offset_of Reg.t5

abbrev pub regs_t6 : ℕ
regs_t6 = offset_of Reg.t6

abbrev pub regs_a0 : ℕ
regs_a0 = offset_of Reg.a0

abbrev pub regs_a1 : ℕ
regs_a1 = offset_of Reg.a1

abbrev pub regs_a2 : ℕ
regs_a2 = offset_of Reg.a2

abbrev pub regs_a3 : ℕ
regs_a3 = offset_of Reg.a3

abbrev pub regs_a4 : ℕ
regs_a4 = offset_of Reg.a4

abbrev pub regs_a5 : ℕ
regs_a5 = offset_of Reg.a5

abbrev pub regs_a6 : ℕ
regs_a6 = offset_of Reg.a6

abbrev pub regs_a7 : ℕ
regs_a7 = offset_of Reg.a7

abbrev pub regs_s0 : ℕ
regs_s0 = offset_of Reg.s0

abbrev pub regs_s1 : ℕ
regs_s1 = offset_of Reg.s1

abbrev pub regs_s2 : ℕ
regs_s2 = offset_of Reg.s2

abbrev pub regs_s3 : ℕ
regs_s3 = offset_of Reg.s3

abbrev pub regs_s4 : ℕ
regs_s4 = offset_of Reg.s4

abbrev pub regs_s5 : ℕ
regs_s5 = offset_of Reg.s5

abbrev pub regs_s6 : ℕ
regs_s6 = offset_of Reg.s6

abbrev pub regs_s7 : ℕ
regs_s7 = offset_of Reg.s7

abbrev pub regs_s8 : ℕ
regs_s8 = offset_of Reg.s8

abbrev pub regs_s9 : ℕ
regs_s9 = offset_of Reg.s9

abbrev pub regs_s10 : ℕ
regs_s10 = offset_of Reg.s10

abbrev pub regs_s11 : ℕ
regs_s11 = offset_of Reg.s11

abbrev pub regs_pmp : ℕ
regs_pmp = offset_of Reg.pmp

abbrev pub regs_timeout : ℕ
regs_timeout = offset_of Reg.timeout

abbrev pub regs_tpc : ℕ
regs_tpc = offset_of Reg.tpc

abbrev pub regs_tsp : ℕ
regs_tsp = offset_of Reg.tsp

abbrev pub regs_cause : ℕ
regs_cause = offset_of Reg.cause

abbrev pub regs_tval : ℕ
regs_tval = offset_of Reg.tval

abbrev pub regs_ppc : ℕ
regs_ppc = offset_of Reg.ppc

abbrev pub regs_psp : ℕ
regs_psp = offset_of Reg.psp

abbrev pub regs_pa0 : ℕ
regs_pa0 = offset_of Reg.pa0

abbrev pub regs_pa1 : ℕ
regs_pa1 = offset_of Reg.pa1

abbrev pub proc_regs : ℕ
proc_regs = 0

-- The registers come first in `struct proc`.
abbrev pub proc_pid : ℕ
proc_pid = offset_of Reg.count

abbrev pub proc_state : ℕ
proc_state = offset_of (Reg.count + 1)

abbrev pub proc_cap_table : ℕ
proc_cap_table = offset_of (Reg.count + 3)

abbrev pub proc_client : ℕ
proc_client = offset_of (Reg.count + 4)

abbrev pub cap_node_prev : ℕ
cap_node_prev = 0

abbrev pub cap_node_next : ℕ
cap_node_next = 8

abbrev pub cap_node_cap : ℕ
cap_node_cap = 16

abbrev pub cap_word0 : ℕ
cap_word0 = 0

abbrev pub cap_word1 : ℕ
cap_word1 = 8

abbrev pub num_of_sysnr : ℕ
num_of_sysnr = 11
