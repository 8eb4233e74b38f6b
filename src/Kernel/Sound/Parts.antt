-- ===== src/Kernel/Sound/Parts.antt =====
-- The invariant under changes of one part of the kernel.
use separation_kernel.Prelude.{ℕ, ◌<◌, ◌≡◌, Bool, false, Option, arith}
use separation_kernel.Config.{n_proc}
use separation_kernel.Cap.Valid.Defs.{IsValid}
use separation_kernel.CapNode.{Ptr, Heap, is_deleted, get_cap}
use separation_kernel.CapNode.Forest.{Rings, is_sentinel, IsForest}
use separation_kernel.Proc.{Proc, get_cap_node}
use separation_kernel.Sched.{Schedule}
use separation_kernel.Sched.Init.{IsFrame}
use separation_kernel.Kernel.{Kernel, set_proc}
use separation_kernel.Kernel.Sound.{IsSound, IsProc, IsReceiver, IsTableNode}

module _ {tables : Ptr} {rs : Rings} {k : Kernel} (sound : IsSound tables rs k) where
  -- Every capability index names a node of the table of the process.
  pub get_cap_node-IsTableNode :
      (i cidx : ℕ) → i < n_proc → IsTableNode tables (get_cap_node (k.procs i) cidx)
  unfolding get_cap_node
  get_cap_node-IsTableNode i cidx h = let p = sound.procs i h in omega arith

  pub get_cap-IsValid : (p : Ptr) → is_deleted k.heap p ≡ false → IsValid (get_cap k.heap p)
  unfolding get_cap is_deleted
  get_cap-IsValid p live = rw live (sound.caps p)

  pub with_procs :
      (ps : ℕ → Proc)
      → ((i : ℕ) → i < n_proc → IsProc tables i (ps i))
      → IsSound tables rs (record k { procs = ps })
  with_procs ps h = record {
    tables_not_null = sound.tables_not_null;
    forest = sound.forest;
    apart = sound.apart;
    caps = sound.caps;
    frame = sound.frame;
    procs = h;
    receivers = sound.receivers;
    current = sound.current;
  }

  pub with_preemption : (b : Bool) → IsSound tables rs (record k { preemption = b })
  with_preemption b = record {
    tables_not_null = sound.tables_not_null;
    forest = sound.forest;
    apart = sound.apart;
    caps = sound.caps;
    frame = sound.frame;
    procs = sound.procs;
    receivers = sound.receivers;
    current = sound.current;
  }

  pub with_tables :
      (s : Schedule) (r : ℕ → ℕ → Option ℕ)
      → IsFrame s
      → ((c i : ℕ) → IsReceiver (r c i))
      → IsSound tables rs (record k { schedule = s; receivers = r })
  with_tables s r frame h = record {
    tables_not_null = sound.tables_not_null;
    forest = sound.forest;
    apart = sound.apart;
    caps = sound.caps;
    frame = frame;
    procs = sound.procs;
    receivers = h;
    current = sound.current;
  }

  pub with_heap :
      (rs' : Rings) (h : Heap)
      → IsForest h rs'
      → ((p : Ptr) → IsTableNode tables p → is_sentinel p rs' ≡ false)
      → ((p : Ptr) → IsValid (h p).cap)
      → IsSound tables rs' (record k { heap = h })
  with_heap rs' h forest apart caps = record {
    tables_not_null = sound.tables_not_null;
    forest = forest;
    apart = apart;
    caps = caps;
    frame = sound.frame;
    procs = sound.procs;
    receivers = sound.receivers;
    current = sound.current;
  }

  -- A process that keeps its number and its table.
  pub set_proc-IsSound :
      (i : ℕ) (p : Proc)
      → p.pid ≡ (k.procs i).pid
      → p.cap_table ≡ (k.procs i).cap_table
      → IsSound tables rs (set_proc k i p)
  unfolding set_proc
  set_proc-IsSound i p same same' = with_procs _ (λ j h. let q = sound.procs j h in ground arith)
