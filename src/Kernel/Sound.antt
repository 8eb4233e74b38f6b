-- ===== src/Kernel/Sound.antt =====
-- The invariant of the kernel between two steps of its system calls.
pub mod Moved
pub mod Nodes
pub mod Parts
use separation_kernel.Prelude.{
  ℕ, ◌+◌, ◌*◌, ◌%◌, ◌≤◌, ◌<◌, ◌≡◌, ◌≢◌, ◌⊎◌, Bool, true, false, Option, none, some, arith,
}
use separation_kernel.Config.{n_proc, n_caps}
use separation_kernel.Cap.{Cap, get_type}
use separation_kernel.Cap.CapType
use separation_kernel.Cap.Time
use separation_kernel.Cap.Valid.Defs.{IsValid}
use separation_kernel.CapNode.{Ptr, null, Heap, is_deleted}
use separation_kernel.CapNode.Forest.{Rings, is_sentinel, IsForest}
use separation_kernel.Proc.{Proc}
use separation_kernel.Sched.Init.{IsFrame}
use separation_kernel.Kernel.{Kernel, Outcome, ok, fault, yield}

-- The address of `cap_tables[pid][0]`, if `cap_tables` is at `tables`.
abbrev pub table_of : (tables : Ptr) (pid : ℕ) → Ptr
table_of tables pid = tables + pid * n_caps

abbrev pub IsTableNode : (tables p : Ptr) → Type 0
IsTableNode tables p = (tables ≤ p) × (p < table_of tables n_proc)

-- Process `i` has its number and its table.
pub record IsProc (tables : Ptr) (i : ℕ) (p : Proc) : Type 0 where
  pub pid : p.pid ≡ i
  pub cap_table : p.cap_table ≡ table_of tables i

abbrev pub IsReceiver : Option ℕ → Type 0
IsReceiver none = Unit {0}
IsReceiver (some i) = i < n_proc

-- The nodes are in the lists `rs`, sentinels stand outside the tables, every node holds a
-- well-formed capability, and so are the schedule, the processes and the receivers.
pub record IsSound (tables : Ptr) (rs : Rings) (k : Kernel) : Type 0 where
  pub tables_not_null : null < tables
  pub forest : IsForest k.heap rs
  pub apart : (p : Ptr) → IsTableNode tables p → is_sentinel p rs ≡ false
  pub caps : (p : Ptr) → IsValid (k.heap p).cap
  pub frame : IsFrame k.schedule
  pub procs : (i : ℕ) → i < n_proc → IsProc tables i (k.procs i)
  pub receivers : (c i : ℕ) → IsReceiver (k.receivers c i)
  pub current : k.current < n_proc

-- A capability for time whose slice has been handed out to the end.
abbrev pub IsExhausted : Cap → Type 0
IsExhausted cap = (get_type cap ≡ CapType.time) × (Time.get_end cap ≤ Time.get_free cap)

-- What a call can fail an assertion on: such a capability, or channels in a node that is in no list,
-- which a revocation updates as if they were time.
abbrev pub IsFaulty : Heap → Ptr → Type 0
IsFaulty h p =
    IsExhausted (h p).cap ⊎ ((is_deleted h p ≡ true) × (get_type (h p).cap ≡ CapType.channels))

-- A call that comes back, or gives up the hart, leaves the invariant; it faults only if a node of
-- the heap that it started from is such a node.
abbrev pub Settled : {A : Type 0} → (tables : Ptr) → Heap → Outcome A → Type 0
Settled tables h (ok a k) = (rs : Rings) × IsSound tables rs k
Settled tables h (yield k) = (rs : Rings) × IsSound tables rs k
Settled tables h fault = (p : Ptr) × IsFaulty h p
