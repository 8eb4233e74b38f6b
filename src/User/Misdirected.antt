-- ===== src/User/Misdirected.antt =====
-- api/s3k.h: two wrappers that do not put the number of an invocation into t0.
use separation_kernel.Prelude.{ℕ, ◌-◌, ◌^◌, ◌≡◌, refl, ◌==◌, if◌then◌else◌}
use separation_kernel.Cap.{Cap, null_cap}
use separation_kernel.Proc.{Regs}
use separation_kernel.Proc.Reg
use separation_kernel.Syscall.Caps.{syscall_delete_cap, syscall_derive_cap}
use separation_kernel.Trap.{syscall_vector}
use separation_kernel.Trap.SysNr
use separation_kernel.User.Names.{Numbers, IsKernel}
use separation_kernel.User.{Ecall, load, s3k_supervisor_get_state, s3k_supervisor_read_cap}

-- What each wrapper makes of the registers behind its `ecall`.
abbrev pub cap_of : Numbers → Regs → Cap
cap_of n q = if q Reg.a0 == n.ok then record { word0 = q Reg.a1; word1 = q Reg.a2 } else null_cap

abbrev pub state_of : Numbers → Regs → ℕ
state_of n q = if q Reg.a0 == n.ok then q Reg.a1 else 2 ^ 64 - 1

-- With the kernel's numbers, s3k_supervisor_read_cap does not read a capability of a supervisee: it
-- asks for a derivation from the supervisor capability into the index that is the process's number,
-- with 5 and the index as the words of the new capability. And s3k_supervisor_get_state leaves t0,
-- which the kernel takes the number of the call from, as it was: where t0 held the number of the
-- deletion, it deletes the supervisor capability.
pub supervisor_wrappers-misdirected :
    (n : Numbers) (ecall : Ecall) (timer : ℕ) (r : Regs) (sup_cid pid cid : ℕ)
    → IsKernel n
    → (q q' q'' : Regs) × (s3k_supervisor_read_cap n ecall r sup_cid pid cid ≡ cap_of n (ecall q))
      × (syscall_vector timer q ≡ syscall_derive_cap sup_cid pid 5 cid)
      × (s3k_supervisor_get_state n ecall r sup_cid pid ≡ state_of n (ecall q'))
      × (q' Reg.t0 ≡ r Reg.t0)
      × (s3k_supervisor_get_state n ecall (load r Reg.t0 SysNr.delete_cap) sup_cid pid
          ≡ state_of n (ecall q''))
      × (syscall_vector timer q'' ≡ syscall_delete_cap sup_cid)
unfolding s3k_supervisor_read_cap s3k_supervisor_get_state syscall_vector
supervisor_wrappers-misdirected n ecall timer r sup_cid pid cid h =
    let asks : Regs → Regs = λ r.
      load (load (load (load r Reg.a0 sup_cid) Reg.a1 pid) Reg.a2 2) Reg.a7
        n.supervisor_get_state in
    (
      load (load (load (load (load r Reg.a0 sup_cid) Reg.a1 pid) Reg.a2 5) Reg.a3 cid) Reg.t0
          n.supervisor_read_cap,
      asks r,
      asks (load r Reg.t0 SysNr.delete_cap),
      refl,
      rw h.supervisor_read_cap refl,
      refl,
      refl,
      refl,
      refl,
    )
