-- ===== src/Boot/Sound.antt =====
-- The kernel is well-formed when it has booted.
use separation_kernel.Prelude.{
  ℕ, zero, suc, ◌+◌, ◌^◌, ◌≤◌, ◌<◌, ◌≡◌, ◌≢◌, ap, true, ◌-◌, inl, inr, refl, Bool-cases, ◌∙◌, false,
  ◌==◌, [], ◌∷◌, if◌then◌else◌, arith,
}
use separation_kernel.Prelude.Words.{◌>>>◌, ◌&&&◌}
use separation_kernel.Prelude.Bits.{bit_and_mask_below}
use separation_kernel.Cap.{Cap}
use separation_kernel.Cap.Time
use separation_kernel.Config.{n_proc, n_quantum, n_channels, min_hartid, n_harts}
use separation_kernel.Cap.Pmp
use separation_kernel.Cap.Channels
use separation_kernel.Cap.Supervisor
use separation_kernel.Cap.Valid.Empty.{null_cap-IsValid}
use separation_kernel.CapNode.{Ptr, null, Heap}
use separation_kernel.CapNode.Ring.{has, Distinct}
use separation_kernel.CapNode.Forest.{Rings}
use separation_kernel.Sched
use separation_kernel.Sched.Frame.{init-IsFrame}
use separation_kernel.Proc.{Proc, set_reg}
use separation_kernel.Proc.Reg
use separation_kernel.ProcState.Code
use separation_kernel.Kernel.{Kernel, ok, M, ◌>>◌, set_proc, put_reg, put_state}
use separation_kernel.Kernel.Runs.{bind-ok}
use separation_kernel.Kernel.Sound.{IsSound, IsProc, IsTableNode, table_of}
use separation_kernel.Kernel.Sound.Parts.{set_proc-IsSound}
use separation_kernel.Syscall.Settled.Steps.{set_reg-IsSound}
use separation_kernel.Boot.{
  mk_pmp_asserts, Layout, zeroed, make_sentinel, put_sentinel, proc_init_memory, proc_init_channels,
  proc_init_supervisor, proc_init_time, init_procs, proc_init_proc, proc_init_root, proc_init, boot,
}
use separation_kernel.Boot.RootCaps.{pmp-IsValid, channels-IsValid, supervisor-IsValid}
use separation_kernel.Boot.Stage.{IsStage, ready, sentinel-IsStage}
use separation_kernel.Boot.Lists.{one-Added, slices-Added}

-- After the loop the processes from `i` on have their numbers and their tables, and are suspended.
init_procs-IsProc :
    (left : ℕ) (l : Layout) (i : ℕ) (k : Kernel)
    → (ps : ℕ → Proc) × (init_procs left l i k ≡ ok tt (record k { procs = ps }))
      × ((j : ℕ)
          → i ≤ j
          → j < i + left
          → IsProc l.tables j (ps j) × ((ps j).state ≡ Code.suspended))
      × ((j : ℕ) → j < i → ps j ≡ k.procs j)
unfolding init_procs proc_init_proc set_proc
init_procs-IsProc zero l i k = (k.procs, refl, λ j lo hi. absurd (omega arith), λ j lt. refl)
init_procs-IsProc (suc left) l i k =
    let p : Proc = record (k.procs i) {
      pid = i;
      cap_table = table_of l.tables i;
      state = Code.suspended;
    } in
    let (ps, run, made, same) =
      init_procs-IsProc left l (i + 1)
        (record k { procs = λ j. if j == i then p else k.procs j }) in
    (
      ps,
      run,
      λ j lo hi. elim (Bool-cases (j == i)) [
        | inl e ↦
            let here : ps j ≡ p = same j (ground arith) ∙ ground arith in
            (
              record { pid = ground (arith, here); cap_table = ground (arith, here) },
              ground (arith, here),
            )
        | inr other ↦ made j (ground arith) (omega arith)
      ],
      λ j lt. same j (omega arith) ∙ ground arith,
    )

-- What the entry with number `i` of the first process's table holds.
abbrev pub root_cap : (root_payload i : ℕ) → Cap
root_cap root_payload i =
    if i == 0
    then Pmp.mk (root_payload >>> 12) 7
    else if i == 1
    then Channels.mk 0 n_channels 0
    else if i == 2
    then Supervisor.mk 0 n_proc 0
    else Time.mk (min_hartid + (i - 3)) 0 n_quantum 0

-- The first process is ready at `root_payload`, with a PMP frame, all channels, the supervision of
-- all processes and the frame of each hart, the other processes are suspended, and the schedule is
-- as `sched_init` makes it.
pub record IsBooted (l : Layout) (root_payload : ℕ) (k : Kernel) : Type 0 where
  pub caps :
      (i : ℕ)
      → i < 3 + n_harts
      → ((k.heap (l.tables + i)).cap ≡ root_cap root_payload i)
        × ((k.heap (l.tables + i)).prev ≢ null)
  pub root :
      ((k.procs 0).state ≡ Code.ready)
      × ((k.procs 0).regs Reg.pc ≡ root_payload)
      × ((k.procs 0).regs Reg.a0 ≡ 0)
  pub others : (j : ℕ) → 0 < j → j < n_proc → (k.procs j).state ≡ Code.suspended
  pub schedule : k.schedule ≡ Sched.init zeroed.schedule

-- The addresses that the linker gives: four sentinels beside the tables, and nothing at `NULL`.
pub record IsLayout (l : Layout) : Type 0 where
  pub tables : null < l.tables
  pub not_null : has null (l.memory ∷ l.channels ∷ l.supervisor ∷ l.time ∷ []) ≡ false
  pub distinct : Distinct (l.memory ∷ l.channels ∷ l.supervisor ∷ l.time ∷ [])
  pub outside :
      (q : Ptr)
      → IsTableNode l.tables q
      → has q (l.memory ∷ l.channels ∷ l.supervisor ∷ l.time ∷ []) ≡ false

module _ (l : Layout) (layout : IsLayout l) (want : ℕ → Cap) where
  -- Before the first list.
  zeroed-IsStage :
      (ps : ℕ → Proc)
      → ((j : ℕ) → j < n_proc → IsProc l.tables j (ps j))
      → IsStage l.tables want
          (record zeroed { procs = ps })
          []
          0
          (l.memory ∷ l.channels ∷ l.supervisor ∷ l.time ∷ [])
          zeroed.heap
  zeroed-IsStage ps made = record {
    sound = record {
      tables_not_null = layout.tables;
      forest = record { rings = tt; listed = λ q live. absurd (live refl) };
      apart = λ p w. refl;
      caps = λ p. null_cap-IsValid;
      frame = init-IsFrame zeroed.schedule;
      procs = made;
      receivers = λ c i. tt;
      current = omega arith;
    };
    free = λ i lo hi. refl;
    spare = λ q i. refl;
    outside = layout.outside;
    room = omega arith;
    held = λ i lo. absurd (omega arith);
  }

-- How `proc_init_root` and `boot` run, if their parts do.
module _ (l : Layout) (root_payload : ℕ) (k : Kernel) where
  abbrev rest_of_root : M (Unit {0})
  rest_of_root = put_reg 0 Reg.pc root_payload >> (put_reg 0 Reg.a0 0 >> put_state 0 Code.ready)

  proc_init_root-runs :
      (h h1 h2 h3 h4 : Heap) (a0 a1 a2 a3 a4 : Ptr)
      → (k.procs 0).cap_table ≡ a0
      → proc_init_memory l.memory a0 root_payload (record k { heap = h })
        ≡ ok a1 (record k { heap = h1 })
      → proc_init_channels l.channels a1 (record k { heap = h1 }) ≡ ok a2 (record k { heap = h2 })
      → proc_init_supervisor l.supervisor a2 (record k { heap = h2 })
        ≡ ok a3 (record k { heap = h3 })
      → proc_init_time l.time a3 (record k { heap = h3 }) ≡ ok a4 (record k { heap = h4 })
      → proc_init_root l root_payload (record k { heap = h })
        ≡ rest_of_root (record k { heap = h4 })
  unfolding proc_init_root
  proc_init_root-runs h h1 h2 h3 h4 a0 a1 a2 a3 a4 e0 e1 e2 e3 e4 = rw e0 (
      bind-ok (proc_init_memory l.memory a0 root_payload) _ {k = record k { heap = h }} e1
      ∙ bind-ok (proc_init_channels l.channels a1) _ {k = record k { heap = h1 }} e2
      ∙ bind-ok (proc_init_supervisor l.supervisor a2) _ {k = record k { heap = h2 }} e3
      ∙ bind-ok (proc_init_time l.time a3) _ {k = record k { heap = h3 }} e4)

  boot-runs :
      (k' : Kernel)
      → init_procs n_proc l 0 zeroed ≡ ok tt k
      → proc_init_root l root_payload k ≡ ok tt k'
      → boot l root_payload zeroed ≡ ok tt (record k' { schedule = Sched.init k'.schedule })
  unfolding boot proc_init
  boot-runs k' e e' =
      bind-ok (proc_init l root_payload) _ {k = zeroed}
        (bind-ok (init_procs n_proc l 0) (λ _. proc_init_root l root_payload) {k = zeroed} e ∙ e')

  -- The registers and the state of the root process are set at the end.
  rest_of_root-IsSound :
      (tables : Ptr) (rs : Rings) (h : Heap)
      → IsSound tables rs (ready k h)
      → (k' : Kernel) × (rest_of_root (record k { heap = h }) ≡ ok tt k')
        × IsSound tables rs (record k' { schedule = Sched.init k'.schedule })
        × (k'.heap ≡ h)
        × (k'.schedule ≡ k.schedule)
        × ((k'.procs 0).state ≡ Code.ready)
        × ((k'.procs 0).regs Reg.pc ≡ root_payload)
        × ((k'.procs 0).regs Reg.a0 ≡ 0)
        × ((j : ℕ) → 0 < j → k'.procs j ≡ k.procs j)
  unfolding put_reg put_state set_proc set_reg
  rest_of_root-IsSound tables rs h sound = (
    _,
    refl,
    set_proc-IsSound (set_reg-IsSound (set_reg-IsSound sound 0 Reg.pc root_payload) 0 Reg.a0 0) 0 _
        refl refl,
    refl,
    refl,
    refl,
    refl,
    refl,
    λ j pos. ground arith,
  )

-- The four lists are made one after the other.
module _ (l : Layout) (layout : IsLayout l) (root_payload : ℕ) (k : Kernel) (h : Heap)
    (stage : IsStage l.tables
      (root_cap root_payload)
      k
      []
      0
      (l.memory ∷ l.channels ∷ l.supervisor ∷ l.time ∷ [])
      h) where
  root-Added :
      root_payload < 2 ^ 44
      → (k.procs 0).cap_table ≡ l.tables + 0
      → (rs : Rings) × (g : Heap) × (proc_init_root l root_payload (record k { heap = h })
          ≡ rest_of_root l root_payload k (record k { heap = g }))
        × IsSound l.tables rs (ready k g)
        × ((i : ℕ)
            → i < 3 + n_harts
            → ((g (l.tables + i)).cap ≡ root_cap root_payload i) × ((g (l.tables + i)).prev ≢ null))
  unfolding proc_init_memory proc_init_channels proc_init_supervisor proc_init_time put_sentinel
  root-Added small at_root =
      let distinct = layout.distinct in
      let not_null = layout.not_null in
      let (rs1, h1, run1, stage1) =
        one-Added {k = k} l.memory (Pmp.mk (root_payload >>> 12) 7) (ground arith) (ground arith)
          (omega arith) refl (pmp-IsValid (root_payload >>> 12) 7 (omega arith) (omega arith))
          stage in
      let (rs2, h2, run2, stage2) =
        one-Added {k = k} l.channels (Channels.mk 0 n_channels 0) (ground arith) (ground arith)
          (omega arith) refl channels-IsValid stage1 in
      let (rs3, h3, run3, stage3) =
        one-Added {k = k} l.supervisor (Supervisor.mk 0 n_proc 0) (ground arith) (ground arith)
          (omega arith) refl supervisor-IsValid stage2 in
      let (stage4, live) = sentinel-IsStage l.time (ground arith) refl stage3 in
      let (rs5, h5, run5, stage5) =
        slices-Added n_harts min_hartid _ 3 7 [] (make_sentinel h3 l.time) l.time live (omega arith)
          (omega arith) (omega arith) (omega arith)
          (λ j lt. let offset : 3 + j - 3 ≡ j = omega arith in ground (arith, offset)) stage4 in
      let width : (root_payload >>> 12) &&& 0xffffffff ≡ root_payload >>> 12 =
        bit_and_mask_below 32 (root_payload >>> 12) (omega arith) in
      let asserted : mk_pmp_asserts (root_payload >>> 12) 7 ≡ true = ground (arith, width) in
      (
        rs5,
        h5,
        proc_init_root-runs l root_payload k h h1 h2 h3 h5 (l.tables + 0) (l.tables + 1)
            (l.tables + 2) (l.tables + 3) (l.tables + 7) at_root (rw asserted run1) run2 run3 run5,
        stage5.sound,
        stage5.held,
      )

-- From zeroed memory, with the root process at an address below 2^44, the kernel boots: no assertion
-- fails, those of the constructors of capabilities included, and the kernel is well-formed. The first
-- process is ready at that address, and the first entries of its table hold, in lists, the PMP frame
-- of the payload, all channels, the supervision of all processes and the frame of each hart; the
-- other processes are suspended, and the schedule is as `sched_init` makes it.
pub boot-IsSound :
    (l : Layout) (root_payload : ℕ)
    → IsLayout l
    → root_payload < 2 ^ 44
    → (rs : Rings) × (k : Kernel) × (boot l root_payload zeroed ≡ ok tt k)
      × IsSound l.tables rs k
      × IsBooted l root_payload k
boot-IsSound l root_payload layout small =
    let (ps, procs_run, made, _) = init_procs-IsProc n_proc l 0 zeroed in
    let k : Kernel = record zeroed { procs = ps } in
    let (first, _) = made 0 (omega arith) (omega arith) in
    let (rs, h, run, sound, held) =
      root-Added l layout root_payload k zeroed.heap
        (zeroed-IsStage l layout (root_cap root_payload) ps
          (λ j lt. (made j (omega arith) (omega arith)).0))
        small first.cap_table in
    let (k', ends, sound', heap, schedule, state, pc, a0, others) =
      rest_of_root-IsSound l root_payload k l.tables rs h sound in
    (
      rs,
      _,
      boot-runs l root_payload k k' procs_run (run ∙ ends),
      sound',
      record {
        caps = λ i lt. rw heap (held i lt);
        root = (state, pc, a0);
        others = λ j pos lt.
            ap (λ (p : Proc). p.state) (others j pos) ∙ (made j (omega arith) (omega arith)).1;
        schedule = ap Sched.init schedule;
      },
    )
