-- ===== src/User.antt =====
-- api/s3k.h: the wrappers of `ecall` for processes. `Ecall` is what an `ecall` does to the registers,
-- from the instruction to the next one that the process runs; the registers that a wrapper does not
-- load hold what the compiler left there, and are an argument.
pub mod Names
pub mod Describe
pub mod Description
pub mod Dump
pub mod Enters
pub mod Misdirected
pub mod Process
use separation_kernel.Prelude.{
  ℕ, ◌+◌, ◌-◌, ◌^◌, Option, none, some, List, [], ◌∷◌, ◌==◌, if◌then◌else◌,
}
use separation_kernel.Cap.{Cap, null_cap}
use separation_kernel.Proc.{Regs}
use separation_kernel.Proc.Reg
use separation_kernel.User.Names.{Numbers}

abbrev pub Ecall : Type 0
Ecall = Regs → Regs

abbrev pub load : Regs → (reg value : ℕ) → Regs
load r reg value i = if i == reg then value else r i

-- The operands of the `ecall` in each case of the switch; there is none for more than 8 arguments.
unfoldable pub operands : Regs → (argc arg0 arg1 arg2 arg3 arg4 arg5 arg6 arg7 : ℕ) → Option Regs
operands r argc arg0 arg1 arg2 arg3 arg4 arg5 arg6 arg7 =
    let r1 = load r Reg.a0 arg0 in
    let r2 = load r1 Reg.a1 arg1 in
    let r3 = load r2 Reg.a2 arg2 in
    let r4 = load r3 Reg.a3 arg3 in
    let r5 = load r4 Reg.a4 arg4 in
    let r6 = load r5 Reg.a5 arg5 in
    let r7 = load r6 Reg.a6 arg6 in
    if argc == 0
    then some r
    else if argc == 1
    then some r1
    else if argc == 2
    then some r2
    else if argc == 3
    then some r3
    else if argc == 4
    then some r4
    else if argc == 5
    then some r5
    else if argc == 6
    then some r6
    else if argc == 7
    then some r7
    else if argc == 8
    then some (load r7 Reg.a7 arg7)
    else none

-- `none` is the endless loop of the default.
unfoldable pub s3k_syscall :
    Ecall → Regs → (argc sysnr arg0 arg1 arg2 arg3 arg4 arg5 arg6 arg7 : ℕ) → Option ℕ
unfolding operands
s3k_syscall ecall r argc sysnr arg0 arg1 arg2 arg3 arg4 arg5 arg6 arg7 =
    elim (operands r argc arg0 arg1 arg2 arg3 arg4 arg5 arg6 arg7) [
      | none ↦ none
      | some q ↦ some (ecall (load q Reg.t0 sysnr) Reg.a0)
    ]

unfoldable pub s3k_get_pid : Numbers → Ecall → Regs → Option ℕ
unfolding s3k_syscall
s3k_get_pid n ecall r = s3k_syscall ecall r 0 n.get_pid 0 0 0 0 0 0 0 0

unfoldable pub s3k_read_reg : Numbers → Ecall → Regs → (regnr : ℕ) → Option ℕ
unfolding s3k_syscall
s3k_read_reg n ecall r regnr = s3k_syscall ecall r 1 n.read_reg regnr 0 0 0 0 0 0 0

unfoldable pub s3k_write_reg : Numbers → Ecall → Regs → (regnr val : ℕ) → Option ℕ
unfolding s3k_syscall
s3k_write_reg n ecall r regnr val = s3k_syscall ecall r 2 n.write_reg regnr val 0 0 0 0 0 0

unfoldable pub s3k_yield : Numbers → Ecall → Regs → Option ℕ
unfolding s3k_syscall
s3k_yield n ecall r = s3k_syscall ecall r 0 n.yield 0 0 0 0 0 0 0 0

unfoldable pub s3k_read_cap : Numbers → Ecall → Regs → (cidx : ℕ) → ℕ × Cap
s3k_read_cap n ecall r cidx =
    let q = ecall (load (load r Reg.a0 cidx) Reg.t0 n.read_cap) in
    (q Reg.a0, record { word0 = q Reg.a1; word1 = q Reg.a2 })

unfoldable pub s3k_move_cap : Numbers → Ecall → Regs → (cidx_src cidx_dest : ℕ) → Option ℕ
unfolding s3k_syscall
s3k_move_cap n ecall r cidx_src cidx_dest =
    s3k_syscall ecall r 2 n.move_cap cidx_src cidx_dest 0 0 0 0 0 0

unfoldable pub s3k_delete_cap : Numbers → Ecall → Regs → (cidx : ℕ) → Option ℕ
unfolding s3k_syscall
s3k_delete_cap n ecall r cidx = s3k_syscall ecall r 1 n.delete_cap cidx 0 0 0 0 0 0 0

unfoldable pub s3k_revoke_cap : Numbers → Ecall → Regs → (cidx : ℕ) → Option ℕ
unfolding s3k_syscall
s3k_revoke_cap n ecall r cidx = s3k_syscall ecall r 1 n.revoke_cap cidx 0 0 0 0 0 0 0

unfoldable pub s3k_derive_cap : Numbers → Ecall → Regs → (src_cidx dest_cidx : ℕ) → Cap → Option ℕ
unfolding s3k_syscall
s3k_derive_cap n ecall r src_cidx dest_cidx cap =
    s3k_syscall ecall r 4 n.derive_cap src_cidx dest_cidx cap.word0 cap.word1 0 0 0 0

unfoldable pub s3k_supervisor_suspend : Numbers → Ecall → Regs → (sup_cid pid : ℕ) → Option ℕ
unfolding s3k_syscall
s3k_supervisor_suspend n ecall r sup_cid pid =
    s3k_syscall ecall r 3 n.invoke_cap sup_cid pid n.supervisor_suspend 0 0 0 0 0

unfoldable pub s3k_supervisor_resume : Numbers → Ecall → Regs → (sup_cid pid : ℕ) → Option ℕ
unfolding s3k_syscall
s3k_supervisor_resume n ecall r sup_cid pid =
    s3k_syscall ecall r 3 n.invoke_cap sup_cid pid n.supervisor_resume 0 0 0 0 0

-- The number goes into a7, and t0 is not loaded. The result is -1 if the call fails.
unfoldable pub s3k_supervisor_get_state : Numbers → Ecall → Regs → (sup_cid pid : ℕ) → ℕ
s3k_supervisor_get_state n ecall r sup_cid pid =
    let q = ecall (
      load (load (load (load r Reg.a0 sup_cid) Reg.a1 pid) Reg.a2 2) Reg.a7
        n.supervisor_get_state) in
    if q Reg.a0 == n.ok then q Reg.a1 else 2 ^ 64 - 1

unfoldable pub s3k_supervisor_read_reg :
    Numbers → Ecall → Regs → (sup_cid pid reg_nr : ℕ) → Option ℕ
unfolding s3k_syscall
s3k_supervisor_read_reg n ecall r sup_cid pid reg_nr =
    s3k_syscall ecall r 4 n.invoke_cap sup_cid pid n.supervisor_read_reg reg_nr 0 0 0 0

unfoldable pub s3k_supervisor_write_reg :
    Numbers → Ecall → Regs → (sup_cid pid reg_nr val : ℕ) → Option ℕ
unfolding s3k_syscall
s3k_supervisor_write_reg n ecall r sup_cid pid reg_nr val =
    s3k_syscall ecall r 5 n.invoke_cap sup_cid pid n.supervisor_write_reg reg_nr val 0 0 0

-- The number of the operation goes into t0, where the number of the call belongs.
unfoldable pub s3k_supervisor_read_cap : Numbers → Ecall → Regs → (sup_cid pid cid : ℕ) → Cap
s3k_supervisor_read_cap n ecall r sup_cid pid cid =
    let q = ecall (
      load (load (load (load (load r Reg.a0 sup_cid) Reg.a1 pid) Reg.a2 5) Reg.a3 cid) Reg.t0
        n.supervisor_read_cap) in
    if q Reg.a0 == n.ok then record { word0 = q Reg.a1; word1 = q Reg.a2 } else null_cap

unfoldable pub s3k_supervisor_give_cap :
    Numbers → Ecall → Regs → (sup_cid pid src dest : ℕ) → Option ℕ
unfolding s3k_syscall
s3k_supervisor_give_cap n ecall r sup_cid pid src dest =
    s3k_syscall ecall r 5 n.invoke_cap sup_cid pid n.supervisor_give_cap src dest 0 0 0

unfoldable pub s3k_supervisor_take_cap :
    Numbers → Ecall → Regs → (sup_cid pid src dest : ℕ) → Option ℕ
unfolding s3k_syscall
s3k_supervisor_take_cap n ecall r sup_cid pid src dest =
    s3k_syscall ecall r 5 n.invoke_cap sup_cid pid n.supervisor_take_cap src dest 0 0 0

-- The result and the four words of the message.
unfoldable pub s3k_receive : Numbers → Ecall → Regs → (cid dest : ℕ) → ℕ × List ℕ
s3k_receive n ecall r cid dest =
    let q = ecall (load (load (load r Reg.a0 cid) Reg.a5 dest) Reg.t0 n.invoke_cap) in
    let received = λ (v : ℕ). if q Reg.a0 == n.ok then v else 0 in
    (
      q Reg.a0,
      received (q Reg.a1)
          ∷ (received (q Reg.a2) ∷ (received (q Reg.a3) ∷ (received (q Reg.a4) ∷ []))),
    )

unfoldable pub s3k_send : Numbers → Ecall → Regs → (cid msg0 msg1 msg2 msg3 src : ℕ) → Option ℕ
unfolding s3k_syscall
s3k_send n ecall r cid msg0 msg1 msg2 msg3 src =
    s3k_syscall ecall r 6 n.invoke_cap cid msg0 msg1 msg2 msg3 src 0 0
