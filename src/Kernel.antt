-- ===== src/Kernel.antt =====
-- The state of the kernel, and the monad that its system calls are written in. A call runs on one
-- hart from its start to its end; the locks of src/sched.c and of the receivers are free then, and
-- held only inside one step.
pub mod ErrorCode
pub mod Runs
pub mod Sound
pub mod SupCall
use separation_kernel.Prelude.{
  ℕ, zero, suc, ◌+◌, Bool, true, false, Option, none, some, ltb, ◌==◌, if◌then◌else◌,
}
use separation_kernel.Config.{n_proc, n_channels}
use separation_kernel.CapNode.{Heap, Ptr, is_deleted}
use separation_kernel.CapNode
use separation_kernel.Cap.{Cap}
use separation_kernel.Proc.{Proc, set_reg}
use separation_kernel.Sched.{Schedule}

-- `processes`, the nodes of `cap_tables` and the sentinels, `schedule`, `receivers[channel][i]`
-- with processes by their index, the index of `current`, and the interrupt-enable bit of mstatus.
pub record Kernel : Type 0 where
  pub procs : ℕ → Proc
  pub heap : Heap
  pub schedule : Schedule
  pub receivers : (channel i : ℕ) → Option ℕ
  pub current : ℕ
  pub preemption : Bool

-- `fault` is a failed `kassert`, an access beyond an array or a loop that does not end; `yield` is a
-- call that gives up the hart, with the state in which `sched_start` is entered.
pub data Outcome (A : Type 0) : Type 0 where
  ok : A → Kernel → Outcome A
  fault : Outcome A
  yield : Kernel → Outcome A

abbrev pub M : Type 0 → Type 0
M A = Kernel → Outcome A

abbrev pub pure : {A : Type 0} → A → M A
pure a k = ok a k

infixl 5 ◌>>=◌ ◌>>◌
abbrev pub ◌>>=◌ : {A B : Type 0} → M A → (A → M B) → M B
◌>>=◌ m f k = elim (m k) [ ok a k' ↦ f a k' | fault ↦ fault | yield k' ↦ yield k' ]

abbrev pub ◌>>◌ : {B : Type 0} → M (Unit {0}) → M B → M B
m >> n = m >>= λ _. n

abbrev pub get : M Kernel
get k = ok k k

abbrev pub put : Kernel → M (Unit {0})
put k' k = ok tt k'

abbrev pub assert : Bool → M (Unit {0})
assert b k = if b then ok tt k else fault

abbrev pub when : Bool → M (Unit {0}) → M (Unit {0})
when b m k = if b then m k else ok tt k

abbrev pub from_option : {A : Type 0} → Option A → M A
from_option none k = fault
from_option (some a) k = ok a k

unfoldable pub set_proc : Kernel → (i : ℕ) → Proc → Kernel
set_proc k i p = record k { procs = λ j. if j == i then p else k.procs j }

abbrev pub current_proc : Kernel → Proc
current_proc k = k.procs k.current

-- `processes[i].regs.reg = value`.
unfoldable pub put_reg : (i reg value : ℕ) → M (Unit {0})
unfolding set_proc set_reg
put_reg i reg value k = ok tt (set_proc k i (set_reg (k.procs i) reg value))

unfoldable pub put_state : (i state : ℕ) → M (Unit {0})
unfolding set_proc
put_state i state k = ok tt (set_proc k i (record (k.procs i) { state = state }))

-- An operation on the nodes, with fuel for its loops: on one hart an atomic update that failed once
-- fails again, so one round of each loop is all that can succeed.
abbrev pub on_heap : (Heap → Option (Heap × Bool)) → M Bool
on_heap op k = elim (op k.heap) [ none ↦ fault | some (h, b) ↦ ok b (record k { heap = h }) ]

abbrev pub rounds : ℕ
rounds = 2
