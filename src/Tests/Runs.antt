-- ===== src/Tests/Runs.antt =====
-- The kernel boots, and its first process gives all of a time slice away.
use separation_kernel.Prelude.{
  ℕ, ◌+◌, ◌≤◌, ◌↔◌, Option, [], ◌∷◌, ◌<◌, ◌≡◌, ◌^◌, refl, false, ◌==◌, if◌then◌else◌, arith,
}
use separation_kernel.Cap.{get_type, is_type}
use separation_kernel.Cap.Derivation.{can_derive}
use separation_kernel.Cap.Update.{derive_update_cap}
use separation_kernel.Sched
use separation_kernel.CapNode
use separation_kernel.Syscall.Hook.{cap_update_hook, time_hook}
use separation_kernel.Syscall.Caps.{syscall_derive_cap, syscall_delete_cap, set_preemption, put_cap}
use separation_kernel.Cap.Time
use separation_kernel.CapNode.{Ptr, is_deleted, get_cap}
use separation_kernel.CapNode.Forest.{Rings}
use separation_kernel.Proc.{get_cap_node}
use separation_kernel.Proc.Reg
use separation_kernel.Kernel.{Kernel, Outcome, ok, fault, yield, put_reg, put_state}
use separation_kernel.Kernel.Sound.{IsSound, IsFaulty}
use separation_kernel.Boot.{Layout, zeroed, boot}
use separation_kernel.Boot.Sound.{IsBooted, IsLayout, boot-IsSound}
use separation_kernel.Sched.Start.{Timer, sched_start, wait_and_set_timeout}
use separation_kernel.Sched.Start.Sound.{IsDispatch, sched_start-IsSound}
use separation_kernel.Sched.Start.Bounds.{wait_and_set_timeout-bounds}
use separation_kernel.Trap.{Cause, trap_entry}
use separation_kernel.Trap.SysNr
use separation_kernel.Runs.{Reach, booted, trapped, IsWords, Reach-IsSound, trap_entry-fault}

abbrev pub example_layout : Layout
example_layout = record { tables = 1000; memory = 1; channels = 2; supervisor = 3; time = 4 }

abbrev pub example_payload : ℕ
example_payload = 0x80010000

pub example_layout-IsLayout : IsLayout example_layout
example_layout-IsLayout = record {
  tables = omega arith;
  not_null = refl;
  distinct = (refl, (refl, (refl, (refl, tt))));
  outside = λ q w. ground arith;
}

boot-IsSound_example :
    (rs : Rings) × (k : Kernel) × (boot example_layout example_payload zeroed ≡ ok tt k)
    × IsSound 1000 rs k
    × IsBooted example_layout example_payload k
boot-IsSound_example =
    boot-IsSound example_layout example_payload example_layout-IsLayout (omega arith)

abbrev pub state_after : Outcome (Unit {0}) → Kernel
state_after (ok a k) = k
state_after fault = zeroed
state_after (yield k) = k

unfoldable pub booted_kernel : Kernel
unfolding boot
booted_kernel = state_after (boot example_layout example_payload zeroed)

pub booted_kernel-Reach : Reach example_layout example_payload booted_kernel
unfolding booted_kernel CapNode.insert put_reg put_state
booted_kernel-Reach = booted refl

-- A call with its number in t0 and its arguments in a0 to a3.
abbrev call : (nr arg0 arg1 arg2 arg3 : ℕ) → Cause
call nr arg0 arg1 arg2 arg3 = record {
  regs = λ i.
      if i == Reg.t0
      then nr
      else if i == Reg.a0
      then arg0
      else if i == Reg.a1
      then arg1
      else if i == Reg.a2
      then arg2
      else if i == Reg.a3
      then arg3
      else 0;
  interrupt = false;
  code = 8;
  mtval = 0;
  timer = 0;
}

call-IsWords :
    (nr arg0 arg1 arg2 arg3 : ℕ)
    → nr < 2 ^ 64
    → arg0 < 2 ^ 64
    → arg1 < 2 ^ 64
    → arg2 < 2 ^ 64
    → arg3 < 2 ^ 64
    → IsWords (call nr arg0 arg1 arg2 arg3)
call-IsWords nr arg0 arg1 arg2 arg3 h h0 h1 h2 h3 i = ground arith

-- The whole frame of hart 1, derived from the root's capability at index 3 into index 10.
abbrev derive_all : Cause
derive_all = call SysNr.derive_cap 3 10 (0x0100000080000003) 0

unfoldable spent_kernel : Kernel
unfolding booted_kernel trap_entry
spent_kernel = state_after (trap_entry derive_all booted_kernel)

spent_kernel-Reach : Reach example_layout example_payload spent_kernel
unfolding spent_kernel put_reg put_state syscall_derive_cap set_preemption is_deleted CapNode.insert
    get_cap_node can_derive get_cap Time.mk Time.get_free Time.get_begin Time.get_end
    Time.get_hartid Time.set_free derive_update_cap put_cap cap_update_hook is_type get_type
    time_hook Sched.update Sched.update_from Sched.set
spent_kernel-Reach =
    trapped booted_kernel-Reach derive_all
      (call-IsWords _ _ _ _ _ (omega arith) (omega arith) (omega arith) (omega arith) (omega arith))
      refl

delete_spent-fault : trap_entry (call SysNr.delete_cap 3 0 0 0) spent_kernel ≡ fault
unfolding spent_kernel syscall_delete_cap CapNode.delete put_reg put_state syscall_derive_cap
    set_preemption is_deleted CapNode.insert get_cap_node can_derive get_cap Time.mk Time.get_free
    Time.get_begin Time.get_end Time.get_hartid Time.set_free derive_update_cap put_cap
    cap_update_hook is_type get_type time_hook Sched.update Sched.update_from Sched.set
delete_spent-fault = refl

spent-IsSound : (rs : Rings) × IsSound 1000 rs spent_kernel
spent-IsSound =
    Reach-IsSound example_layout example_payload example_layout-IsLayout (omega arith) spent_kernel
      spent_kernel-Reach

Reach-IsSound_example : (rs : Rings) × IsSound 1000 rs spent_kernel
Reach-IsSound_example =
    Reach-IsSound example_layout example_payload example_layout-IsLayout (omega arith) spent_kernel
      spent_kernel-Reach

-- The deletion of the root's capability faults, after all of its slice has been derived from it.
trap_entry-fault_example : (p : Ptr) × IsFaulty spent_kernel.heap p
trap_entry-fault_example =
    trap_entry-fault example_layout example_payload example_layout-IsLayout (omega arith)
      spent_kernel (call SysNr.delete_cap 3 0 0 0) spent_kernel-Reach
      (call-IsWords _ _ _ _ _ (omega arith) (omega arith) (omega arith) (omega arith) (omega arith))
      delete_spent-fault

sched_start-IsSound_example :
    (t : Option Timer) × (k : Kernel) × (sched_start (0 ∷ 781 ∷ []) 1 spent_kernel ≡ ok t k)
    × IsSound 1000 spent-IsSound.0 k
    × IsDispatch 1 spent_kernel t k
sched_start-IsSound_example =
    sched_start-IsSound 1000 spent-IsSound.0 spent_kernel 1 (0 ∷ 781 ∷ []) spent-IsSound.1
      (omega arith, omega arith)

wait_and_set_timeout-bounds_example :
    ((wait_and_set_timeout 10 3 7900).start ≡ 7900)
    × ((wait_and_set_timeout 10 3 7900).end + 2000 ≡ 10153)
    × (((wait_and_set_timeout 10 3 7900).start < (wait_and_set_timeout 10 3 7900).end) ↔ (3 ≤ 3))
wait_and_set_timeout-bounds_example =
    wait_and_set_timeout-bounds 10 3 7900 (omega arith) (omega arith) (omega arith) (omega arith)
