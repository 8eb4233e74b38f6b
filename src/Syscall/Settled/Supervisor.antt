-- ===== src/Syscall/Settled/Supervisor.antt =====
-- The invocations of supervisor capabilities keep the invariant of the kernel.
use separation_kernel.Prelude.{
  ℕ, ◌<◌, ◌≡◌, inl, inr, refl, Bool, true, ◌||◌, ltb, leb, ◌==◌, Bool-cases, arith,
}
use separation_kernel.Config.{n_proc}
use separation_kernel.Cap.{Cap, get_type, is_type}
use separation_kernel.Cap.CapType
use separation_kernel.Cap.Supervisor
use separation_kernel.Cap.Valid.Defs.{IsValid}
use separation_kernel.CapNode.{Ptr}
use separation_kernel.CapNode.Forest.{Rings}
use separation_kernel.Proc.{set_reg, proc_cap, read_register, write_register}
use separation_kernel.Proc.Reg
use separation_kernel.ProcState
use separation_kernel.ProcState.Code
use separation_kernel.Kernel.{
  Kernel, Outcome, ok, fault, yield, M, pure, ◌>>◌, set_proc, put_reg, put_state, from_option,
}
use separation_kernel.Kernel.SupCall
use separation_kernel.Kernel.Runs.{bind-ok}
use separation_kernel.Kernel.Sound.{IsSound, Settled}
use separation_kernel.Kernel.Sound.Parts.{set_proc-IsSound}
use separation_kernel.Syscall.Hook.{interprocess_move}
use separation_kernel.Syscall.Supervisor.{
  syscall_invoke_supervisor, supervise, holding, transition, release_supervisee,
}
use separation_kernel.Syscall.Settled.Steps.{ok-Settled, bind-Settled, set_reg-IsSound}
use separation_kernel.Syscall.Settled.Move.{interprocess_move-Settled}
use separation_kernel.Syscall.Settled.Procs.{LeavesProcs, interprocess_move-LeavesProcs}

-- The kernel in which process `pid` is held by its supervisor.
unfoldable held : Kernel → (pid : ℕ) → Kernel
unfolding set_proc
held k pid = set_proc k pid (record (k.procs pid) { state = Code.suspended_busy })

-- The process is still held if the operation comes back.
abbrev IsHolding : {A : Type 0} → (pid : ℕ) → Outcome A → Type 0
IsHolding pid (ok a k) = (k.procs pid).state ≡ Code.suspended_busy
IsHolding pid fault = Unit {0}
IsHolding pid (yield k) = Unit {0}

LeavesProcs-IsHolding :
    {A : Type 0} (k : Kernel) (pid : ℕ) (o : Outcome A)
    → LeavesProcs (held k pid).procs o
    → IsHolding pid o
unfolding held set_proc
LeavesProcs-IsHolding k pid (ok a k') e = rw e (ground arith)
LeavesProcs-IsHolding k pid fault e = tt
LeavesProcs-IsHolding k pid (yield k') e = tt

IsHolding-ok :
    {A : Type 0} (pid : ℕ) (o : Outcome A) {a : A} {k : Kernel}
    → IsHolding pid o
    → o ≡ ok a k
    → (k.procs pid).state ≡ Code.suspended_busy
IsHolding-ok pid o h e = rw e at h

release_supervisee-held :
    (k : Kernel) (pid : ℕ)
    → (k.procs pid).state ≡ Code.suspended_busy
    → release_supervisee pid k
      ≡ ok tt (set_proc k pid (record (k.procs pid) { state = Code.suspended }))
unfolding release_supervisee ProcState.supervisor_release put_state
release_supervisee-held k pid e = rw (e, from_option) refl

module _ {tables : Ptr} {rs : Rings} {k : Kernel} (sound : IsSound tables rs k) (pid : ℕ) where
  held-IsSound : IsSound tables rs (held k pid)
  unfolding held
  held-IsSound = set_proc-IsSound sound pid _ refl refl

  holding-Settled :
      (work : M ℕ)
      → Settled tables k.heap (work (held k pid))
      → IsHolding pid (work (held k pid))
      → Settled tables k.heap (holding pid work k)
  unfolding holding ProcState.supervisor_acquire ProcState.compare_and_set put_state held
  holding-Settled work settled kept = elim (Bool-cases ((k.procs pid).state == Code.suspended)) [
    | inr busy ↦ rw busy (rs, sound)
    | inl idle ↦ rw idle (
        bind-Settled tables k.heap (work (held k pid)) _ settled (λ code k' rs' e sound'.
          ok-Settled {A = ℕ} k.heap {a = code}
            (bind-ok (release_supervisee pid) (λ _. pure code) {k = k'}
              (release_supervisee-held k' pid (IsHolding-ok pid (work (held k pid)) kept e)))
            (set_proc-IsSound sound' pid (record (k'.procs pid) { state = Code.suspended }) refl
              refl)))
  ]

  transition-Settled : (step : ℕ → ℕ × Bool) → Settled tables k.heap (transition pid step k)
  unfolding transition put_state
  transition-Settled step = (rs, set_proc-IsSound sound pid _ refl refl)

module _ {tables : Ptr} {rs : Rings} {k : Kernel} (sound : IsSound tables rs k) (pid : ℕ)
    (exists : pid < n_proc) where
  -- A move of a capability from or to the process that is held.
  holding_move-Settled :
      (src_proc src_cidx dest_proc dest_cidx : ℕ)
      → src_proc < n_proc
      → dest_proc < n_proc
      → Settled tables k.heap
          (holding pid (interprocess_move src_proc src_cidx dest_proc dest_cidx) k)
  unfolding held
  holding_move-Settled src_proc src_cidx dest_proc dest_cidx hs hd =
      holding-Settled sound pid (interprocess_move src_proc src_cidx dest_proc dest_cidx)
        (interprocess_move-Settled (held-IsSound sound pid) src_proc src_cidx dest_proc dest_cidx hs
          hd)
        (LeavesProcs-IsHolding k pid _
          (interprocess_move-LeavesProcs src_proc src_cidx dest_proc dest_cidx (held k pid)))

  -- The capability that a supervisor reads.
  abbrev taken : ℕ → Cap
  taken cidx = proc_cap (held k pid).heap ((held k pid).procs pid) cidx

  read-Settled : (value : ℕ) → Settled tables k.heap (put_reg k.current Reg.a1 value (held k pid))
  unfolding put_reg held
  read-Settled value = (rs, set_reg-IsSound (held-IsSound sound pid) k.current Reg.a1 value)

  read-IsHolding : (value : ℕ) → IsHolding pid (put_reg k.current Reg.a1 value (held k pid))
  unfolding put_reg held set_proc set_reg
  read-IsHolding value = ground arith

  read2-Settled :
      (value value' : ℕ)
      → Settled tables k.heap
          ((put_reg k.current Reg.a1 value >> put_reg k.current Reg.a2 value') (held k pid))
  unfolding put_reg held
  read2-Settled value value' = (
    rs,
    set_reg-IsSound (set_reg-IsSound (held-IsSound sound pid) k.current Reg.a1 value) k.current
        Reg.a2 value',
  )

  read2-IsHolding :
      (value value' : ℕ)
      → IsHolding pid
          ((put_reg k.current Reg.a1 value >> put_reg k.current Reg.a2 value') (held k pid))
  unfolding put_reg held set_proc set_reg
  read2-IsHolding value value' = ground arith

  -- The registers of the process that is held are written.
  write-Settled :
      (regi regv : ℕ)
      → IsSound tables rs
          (set_proc (held k pid) pid (write_register ((held k pid).procs pid) regi regv).0)
  unfolding write_register set_reg
  write-Settled regi regv =
      set_proc-IsSound (held-IsSound sound pid) pid _ (ground arith) (ground arith)

  write-IsHolding :
      (regi regv : ℕ)
      → ((set_proc (held k pid) pid (write_register ((held k pid).procs pid) regi regv).0).procs
          pid).state
        ≡ Code.suspended_busy
  unfolding write_register set_reg set_proc held
  write-IsHolding regi regv = ground arith

  supervise-Settled : (op arg0 arg1 : ℕ) → Settled tables k.heap (supervise pid op arg0 arg1 k)
  unfolding supervise put_reg held set_proc
  supervise-Settled op arg0 arg1 = elim (Bool-cases (op == SupCall.suspend)) [
    | inl e ↦ rw e (transition-Settled sound pid ProcState.supervisor_suspend)
    | inr e ↦ rw e (elim (Bool-cases (op == SupCall.resume)) [
      | inl e ↦ rw e (transition-Settled sound pid ProcState.supervisor_resume)
      | inr e ↦ rw e (elim (Bool-cases (op == SupCall.get_state)) [
        | inl e ↦ rw e (rs, set_reg-IsSound sound k.current Reg.a1 (k.procs pid).state)
        | inr e ↦ rw e (elim (Bool-cases (op == SupCall.read_reg)) [
          | inl e ↦ rw e (
              holding-Settled sound pid _
                (read-Settled (read_register ((held k pid).procs pid) arg0))
                (read-IsHolding (read_register ((held k pid).procs pid) arg0)))
          | inr e ↦ rw e (elim (Bool-cases (op == SupCall.write_reg)) [
            | inl e ↦ rw e (
                holding-Settled sound pid _ (rs, write-Settled arg0 arg1)
                  (write-IsHolding arg0 arg1))
            | inr e ↦ rw e (elim (Bool-cases (op == SupCall.read_cap)) [
              | inl e ↦ rw e (
                  holding-Settled sound pid _ (read2-Settled (taken arg0).word0 (taken arg0).word1)
                    (read2-IsHolding (taken arg0).word0 (taken arg0).word1))
              | inr e ↦ rw e (elim (Bool-cases (op == SupCall.give_cap)) [
                | inl e ↦ rw e (holding_move-Settled k.current arg0 pid arg1 sound.current exists)
                | inr e ↦ rw e (elim (Bool-cases (op == SupCall.take_cap)) [
                  | inl e ↦ rw e (holding_move-Settled pid arg0 k.current arg1 exists sound.current)
                  | inr e ↦ rw e (rs, sound)
                ])
              ])
            ])
          ])
        ])
      ])
    ])
  ]
  -- The process that a well-formed supervisor capability names is within the array of processes.

pub syscall_invoke_supervisor-Settled :
    {tables : Ptr} {rs : Rings} {k : Kernel}
    → IsSound tables rs k
    → (cap : Cap) → IsValid cap
    → get_type cap ≡ CapType.supervisor
    → (pid op arg0 arg1 : ℕ)
    → Settled tables k.heap (syscall_invoke_supervisor cap pid op arg0 arg1 k)
unfolding syscall_invoke_supervisor is_type
syscall_invoke_supervisor-Settled {rs} sound cap valid kind pid op arg0 arg1 =
    let within = valid.supervisor kind in
    rw kind
      (elim (Bool-cases (ltb pid (Supervisor.get_free cap) || leb (Supervisor.get_end cap) pid)) [
        | inl out ↦ rw out (rs, sound)
        | inr inside ↦
            let exists : pid < n_proc = ground arith in
            let in_array : ltb pid n_proc ≡ true = ground arith in
            rw (inside, in_array) (supervise-Settled sound pid exists op arg0 arg1)
      ])
