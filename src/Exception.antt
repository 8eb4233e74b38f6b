-- ===== src/Exception.antt =====
-- src/exception.c: exceptions of a process are handed to its own handler, and the handler's `mret`
-- returns from it.
pub mod Return
use separation_kernel.Prelude.{ℕ, Bool, ◌&&◌, ◌==◌, if◌then◌else◌}
use separation_kernel.Proc.{Proc, set_reg}
use separation_kernel.Proc.Reg

abbrev pub mret : ℕ
mret = 0x0320000073

abbrev pub illegal_instruction : ℕ
illegal_instruction = 2

unfoldable pub restore : Proc → Proc
unfolding set_reg
restore p0 =
    let p1 = set_reg p0 Reg.sp (p0.regs Reg.psp) in
    let p2 = set_reg p1 Reg.pc (p1.regs Reg.ppc) in
    let p3 = set_reg p2 Reg.a0 (p2.regs Reg.pa0) in set_reg p3 Reg.a1 (p3.regs Reg.pa1)

unfoldable pub enter_handler : Proc → (mcause mtval mepc : ℕ) → Proc
unfolding set_reg
enter_handler p0 mcause mtval mepc =
    let p1 = set_reg p0 Reg.ppc mepc in
    let p2 = set_reg p1 Reg.psp (p1.regs Reg.sp) in
    let p3 = set_reg p2 Reg.pa0 (p2.regs Reg.a0) in
    let p4 = set_reg p3 Reg.pa1 (p3.regs Reg.a1) in
    let p5 = set_reg p4 Reg.pc (p4.regs Reg.tpc) in
    let p6 = set_reg p5 Reg.sp (p5.regs Reg.tsp) in
    let p7 = set_reg p6 Reg.a0 mcause in set_reg p7 Reg.a1 mtval

unfoldable pub exception_handler : Proc → (mcause mtval mepc : ℕ) → Proc
unfolding restore enter_handler
exception_handler p mcause mtval mepc =
    if (mcause == illegal_instruction) && (mtval == mret)
    then restore p
    else enter_handler p mcause mtval mepc
