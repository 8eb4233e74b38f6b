-- ===== src/Syscall/Settled/Deliver.antt =====
-- The parts of the calls that send messages keep the invariant of the kernel.
use separation_kernel.Prelude.{
  ℕ, ◌<◌, ◌≡◌, inl, inr, refl, subst, ◌∙◌, true, ◌&&◌, Option, none, some, ltb, Bool-cases, arith,
}
use separation_kernel.Config.{n_proc, n_caps, n_channels}
use separation_kernel.CapNode.{Ptr, Heap}
use separation_kernel.CapNode.Forest.{Rings}
use separation_kernel.Proc.{set_reg}
use separation_kernel.Proc.Reg
use separation_kernel.ProcState
use separation_kernel.Kernel.{Kernel, ok, M, pure, ◌>>=◌, ◌>>◌, set_proc, put_state, assert}
use separation_kernel.Kernel.Runs.{bind-ok}
use separation_kernel.Kernel.Sound.{IsSound, IsReceiver, Settled}
use separation_kernel.Kernel.Sound.Parts.{set_proc-IsSound}
use separation_kernel.Syscall.Basic.{sched_yield}
use separation_kernel.Syscall.Hook.{interprocess_move}
use separation_kernel.Syscall.Ipc.{
  Message, wait, write_message, deliver, acquire_waiting, acquire_from,
}
use separation_kernel.Syscall.Settled.Steps.{bind-Settled, sched_yield-Settled}
use separation_kernel.Syscall.Settled.Move.{interprocess_move-Settled}

module _ {tables : Ptr} {rs : Rings} {k : Kernel} (sound : IsSound tables rs k) where
  -- What every call that waits ends with.
  pub wait_yield-Settled :
      (h : Heap) (channel : ℕ) → Settled {A = ℕ} tables h ((wait channel >> sched_yield) k)
  unfolding wait put_state
  wait_yield-Settled h channel =
      sched_yield-Settled (set_proc-IsSound sound k.current _ refl refl) ℕ h

  pub release_receiver-IsSound :
      (to : ℕ)
      → IsSound tables rs (
          set_proc k to
            (record (k.procs to) { state = ProcState.sender_release (k.procs to).state }))
  release_receiver-IsSound to = set_proc-IsSound sound to _ refl refl

  -- The process that was acquired, if any, is one of the kernel's, and the nodes are as before.
  acquire_waiting-IsSound :
      (channel i : ℕ)
      → channel < n_channels
      → (got : Option ℕ) × (k' : Kernel) × (acquire_waiting channel i k ≡ ok got k')
        × IsSound tables rs k'
        × IsReceiver got
        × (k'.heap ≡ k.heap)
  unfolding acquire_waiting acquire_from put_state set_proc
  acquire_waiting-IsSound channel i lt =
      let (got, k', run, sound', is_proc, same) = found (k.receivers channel i) refl in
      (
        got,
        k',
        bind-ok (assert (ltb channel n_channels)) _ {k = k} {k' = k} (rw in_range refl) ∙ run,
        sound',
        is_proc,
        same,
      )
    where
      in_range : ltb channel n_channels ≡ true
      in_range = ground arith

      found :
          (o : Option ℕ)
          → k.receivers channel i ≡ o
          → (got : Option ℕ) × (k' : Kernel) × (acquire_from (k.receivers channel i) channel k
              ≡ ok got k')
            × IsSound tables rs k'
            × IsReceiver got
            × (k'.heap ≡ k.heap)
      found none e = (none, k, rw e refl, sound, tt, refl)
      found (some to) e =
          let is_proc : IsReceiver (some to) = rw e at (sound.receivers channel i) in
          elim (Bool-cases ((ProcState.sender_acquire (k.procs to).state channel).1)) [
            | inl got ↦ (
              some to,
              set_proc k to (record (k.procs to) {
                state = (ProcState.sender_acquire (k.procs to).state channel).0;
              }),
              rw (e, got) refl,
              set_proc-IsSound sound to _ refl refl,
              is_proc,
              refl,
            )
            | inr missed ↦ (none, k, rw (e, missed) refl, sound, tt, refl)
          ]

  write_message-IsSound :
      (to : ℕ) (m : Message) → IsSound tables rs (set_proc k to (write_message m (k.procs to)))
  unfolding write_message set_reg
  write_message-IsSound to m = set_proc-IsSound sound to _ refl refl

module _ {tables : Ptr} {rs : Rings} {k : Kernel} (sound : IsSound tables rs k) where
  pub deliver-Settled :
      (to : ℕ) (m : Message) (src_cidx : ℕ)
      → to < n_proc
      → Settled tables k.heap (deliver to m src_cidx k)
  unfolding deliver
  deliver-Settled to m src_cidx lt =
      let dest_cidx = (k.procs to).regs Reg.dest_cidx in
      elim (Bool-cases (ltb src_cidx n_caps && ltb dest_cidx n_caps)) [
        | inl grant ↦ rw grant (
            bind-Settled tables k.heap
              ((interprocess_move k.current src_cidx to dest_cidx >>= λ _. pure tt) k) _
              (bind-Settled tables k.heap (interprocess_move k.current src_cidx to dest_cidx k) _
                (interprocess_move-Settled sound k.current src_cidx to dest_cidx sound.current lt)
                (λ _ k' rs' e sound'. (rs', sound')))
              (λ _ k' rs' e sound'. (rs', write_message-IsSound sound' to m)))
        | inr bare ↦ rw bare (rs, write_message-IsSound sound to m)
      ]

-- The call on a channel: the process waiting there is acquired, and what follows depends on it.
pub acquired-Settled :
    {tables : Ptr} {rs : Rings} {k : Kernel}
    → IsSound tables rs k
    → (channel i : ℕ) → channel < n_channels
    → (f : Option ℕ → M ℕ)
    → ((got : Option ℕ) (k' : Kernel)
        → IsSound tables rs k'
        → IsReceiver got
        → Settled tables k'.heap (f got k'))
    → Settled tables k.heap ((acquire_waiting channel i >>= f) k)
acquired-Settled {tables} {rs} {k} sound channel i lt f rest =
    let (got, k', run, sound', is_proc, same) = acquire_waiting-IsSound sound channel i lt in
    rw (bind-ok (acquire_waiting channel i) f {k = k} run)
      (subst (λ h. Settled tables h (f got k')) same (rest got k' sound' is_proc))

-- A message is delivered to the process `to`, and what follows settles.
pub delivered-Settled :
    {tables : Ptr} {rs : Rings} {k : Kernel}
    → IsSound tables rs k
    → (to : ℕ) (m : Message) (src_cidx : ℕ) → to < n_proc
    → (rest : M ℕ)
    → ((k' : Kernel) (rs' : Rings) → IsSound tables rs' k' → Settled tables k.heap (rest k'))
    → Settled tables k.heap ((deliver to m src_cidx >> rest) k)
delivered-Settled {tables} {rs} {k} sound to m src_cidx lt rest settles =
    bind-Settled tables k.heap (deliver to m src_cidx k) (λ _. rest)
      (deliver-Settled sound to m src_cidx lt) (λ _ k' rs' e sound'. settles k' rs' sound')
