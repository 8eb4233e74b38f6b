-- ===== src/Boot.antt =====
-- src/proc.c and src/init.S: how the hart that boots sets up the processes, the first capabilities
-- and the schedule. The memory of the kernel is all zero then.
pub mod Lists
pub mod RootCaps
pub mod Sound
pub mod Stage
use separation_kernel.Prelude.{
  ℕ, zero, suc, ◌+◌, ◌-◌, Bool, ltb, leb, ◌==◌, ◌&&◌, ◌||◌, if◌then◌else◌, false, none,
}
use separation_kernel.Prelude.Words.{◌>>>◌, ◌&&&◌}
use separation_kernel.Config.{
  n_proc, n_caps, n_quantum, n_channels, min_hartid, max_hartid, n_harts,
}
use separation_kernel.Cap.{Cap, null_cap}
use separation_kernel.Cap.Pmp
use separation_kernel.Cap.Time
use separation_kernel.Cap.Channels
use separation_kernel.Cap.Supervisor
use separation_kernel.CapNode.{Ptr, null, Heap, set_prev, set_next, set_cap, write}
use separation_kernel.CapNode
use separation_kernel.Proc.Reg
use separation_kernel.ProcState.Code
use separation_kernel.Sched
use separation_kernel.Kernel.{
  Kernel, M, pure, ◌>>=◌, ◌>>◌, get, put, assert, on_heap, rounds, set_proc, put_reg, put_state,
}
use separation_kernel.Kernel.Sound.{table_of}

-- Where the linker puts `cap_tables` and the static sentinels of the four functions.
pub record Layout : Type 0 where
  pub tables : Ptr
  pub memory : Ptr
  pub channels : Ptr
  pub supervisor : Ptr
  pub time : Ptr

-- The kernel's memory with every byte zero. No process is current yet.
abbrev pub zeroed : Kernel
zeroed = record {
  procs = λ i. record {
    regs = λ r. 0;
    pid = 0;
    state = 0;
    dest_cidx = 0;
    cap_table = null;
    client = null;
  };
  heap = λ p. record { prev = null; next = null; cap = null_cap };
  schedule = λ q h. 0;
  receivers = λ c i. none;
  current = 0;
  preemption = false;
}

abbrev pub make_sentinel : Heap → (sentinel : Ptr) → Heap
make_sentinel h sentinel =
    set_cap (set_next (set_prev h sentinel sentinel) sentinel sentinel) sentinel null_cap

unfoldable pub put_sentinel : (sentinel : Ptr) → M (Unit {0})
put_sentinel sentinel = do k ← get; put (record k { heap = make_sentinel k.heap sentinel })

-- `cap_node_insert(cap, cn++, &sentinel)`, with the new `cn`.
unfoldable pub add_cap : Cap → (cn sentinel : Ptr) → M Ptr
add_cap cap cn sentinel = do
  inserted ← on_heap (λ h. CapNode.insert rounds h cap cn sentinel)
  pure (cn + 1)

-- The assertions of the kernel's constructors, as scripts/cap_gen.py puts them from gen/cap.yml: the
-- widths of the fields, and what the file asks of each type.
abbrev pub fits : (value mask : ℕ) → Bool
fits value mask = value &&& mask == value

abbrev pub mk_pmp_asserts : (addr rwx : ℕ) → Bool
mk_pmp_asserts addr rwx =
    fits addr 0xffffffff && fits rwx 0xff && ((rwx == 4) || (rwx == 5) || (rwx == 6) || (rwx == 7))

abbrev pub mk_range_asserts : (begin end free limit mask : ℕ) → Bool
mk_range_asserts begin end free limit mask =
    fits begin mask
    && fits end mask
    && fits free mask
    && (begin == free)
    && ltb begin end
    && leb end limit

abbrev pub mk_time_asserts : (hartid begin end free : ℕ) → Bool
mk_time_asserts hartid begin end free =
    fits hartid 0xff
    && leb min_hartid hartid
    && leb hartid max_hartid
    && mk_range_asserts begin end free n_quantum 0xffff

unfoldable pub proc_init_memory : (sentinel cn : Ptr) → (root_payload : ℕ) → M Ptr
unfolding put_sentinel add_cap
proc_init_memory sentinel cn root_payload = do
  put_sentinel sentinel
  assert (mk_pmp_asserts (root_payload >>> 12) 7)
  add_cap (Pmp.mk (root_payload >>> 12) 7) cn sentinel

-- The loop of `proc_init_time`, with the rounds left.
unfoldable pub init_slices : ℕ → (hartid : ℕ) → (cn sentinel : Ptr) → M Ptr
unfolding add_cap
init_slices zero hartid cn sentinel = pure cn
init_slices (suc left) hartid cn sentinel = do
  assert (mk_time_asserts hartid 0 n_quantum 0)
  cn' ← add_cap (Time.mk hartid 0 n_quantum 0) cn sentinel
  init_slices left (hartid + 1) cn' sentinel

unfoldable pub proc_init_time : (sentinel cn : Ptr) → M Ptr
unfolding put_sentinel init_slices
proc_init_time sentinel cn = do put_sentinel sentinel; init_slices n_harts min_hartid cn sentinel

unfoldable pub proc_init_supervisor : (sentinel cn : Ptr) → M Ptr
unfolding put_sentinel add_cap
proc_init_supervisor sentinel cn = do
  put_sentinel sentinel
  assert (mk_range_asserts 0 n_proc 0 n_proc 0xff)
  add_cap (Supervisor.mk 0 n_proc 0) cn sentinel

unfoldable pub proc_init_channels : (sentinel cn : Ptr) → M Ptr
unfolding put_sentinel add_cap
proc_init_channels sentinel cn = do
  put_sentinel sentinel
  assert (mk_range_asserts 0 n_channels 0 n_channels 0xffff)
  add_cap (Channels.mk 0 n_channels 0) cn sentinel

unfoldable pub proc_init_proc : Layout → (pid : ℕ) → M (Unit {0})
unfolding set_proc
proc_init_proc l pid = do
  k ← get
  put (
      set_proc k pid (record (k.procs pid) {
        pid = pid;
        cap_table = table_of l.tables pid;
        state = Code.suspended;
      }))

-- The loop of `proc_init`, with the rounds left.
unfoldable pub init_procs : ℕ → Layout → (i : ℕ) → M (Unit {0})
unfolding proc_init_proc
init_procs zero l i = pure tt
init_procs (suc left) l i = do proc_init_proc l i; init_procs left l (i + 1)

unfoldable pub proc_init_root : Layout → (root_payload : ℕ) → M (Unit {0})
unfolding proc_init_memory proc_init_channels proc_init_supervisor proc_init_time
proc_init_root l root_payload = do
  k ← get
  cn1 ← proc_init_memory l.memory (k.procs 0).cap_table root_payload
  cn2 ← proc_init_channels l.channels cn1
  cn3 ← proc_init_supervisor l.supervisor cn2
  cn4 ← proc_init_time l.time cn3
  put_reg 0 Reg.pc root_payload
  put_reg 0 Reg.a0 0
  put_state 0 Code.ready

unfoldable pub proc_init : Layout → (root_payload : ℕ) → M (Unit {0})
unfolding init_procs proc_init_root
proc_init l root_payload = do init_procs n_proc l 0; proc_init_root l root_payload

-- `proc_init` and then `sched_init`.
unfoldable pub boot : Layout → (root_payload : ℕ) → M (Unit {0})
unfolding proc_init
boot l root_payload = do
  proc_init l root_payload
  k ← get
  put (record k { schedule = Sched.init k.schedule })
