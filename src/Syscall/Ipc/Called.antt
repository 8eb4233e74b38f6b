-- ===== src/Syscall/Ipc/Called.antt =====
-- src/syscall.c: a client calls a server that waits for it.
use separation_kernel.Prelude.{
  ℕ, ◌^◌, ◌<◌, ◌≡◌, ◌≢◌, none, refl, ap, subst, sym, ◌∙◌, true, ◌&&◌, Option, some, ◌==◌,
  if◌then◌else◌, arith,
}
use separation_kernel.Config.{n_proc, n_channels}
use separation_kernel.Cap.{Cap, get_type, is_type}
use separation_kernel.Cap.CapType
use separation_kernel.Cap.Valid.Defs.{IsValid}
use separation_kernel.CapNode.{Ptr, Heap}
use separation_kernel.CapNode.Forest.{Rings}
use separation_kernel.Proc.{Proc, get_cap_node, set_reg}
use separation_kernel.Proc.Reg
use separation_kernel.ProcState
use separation_kernel.ProcState.View.{State, encode, sender_release-encode}
use separation_kernel.Sched.{Schedule}
use separation_kernel.Kernel.{Kernel, ok, ◌>>=◌, ◌>>◌, get, current_proc, set_proc, put_state}
use separation_kernel.Kernel.ErrorCode
use separation_kernel.Kernel.Runs.{bind-ok}
use separation_kernel.Kernel.Sound.{IsSound}
use separation_kernel.Kernel.Sound.Parts.{set_proc-IsSound}
use separation_kernel.Syscall.Ipc.{
  Message, write_message, deliver, acquire_waiting, release_receiver,
}
use separation_kernel.Syscall.Ipc.Granted.{IsLeft}
use separation_kernel.ProcState.View.{receiver_wait-encode, release-encode}
use separation_kernel.Kernel.{yield, put_reg}
use separation_kernel.Cap.Client
use separation_kernel.Syscall.Basic.{sched_yield}
use separation_kernel.Syscall.Ipc.{subscribe, wait, syscall_invoke_client}
use separation_kernel.Syscall.Ipc.Delivered.{
  IsDelivered, Grants, receiving, acquire_waiting-receiving, deliver-Grants, receiving-Grants,
  receiving-IsLeft,
}

-- Somebody is registered for replies afterwards.
subscribe-registered :
    (k : Kernel) (channel : ℕ)
    → (r : ℕ → ℕ → Option ℕ) × (subscribe channel k ≡ ok tt (record k { receivers = r }))
      × (r channel 1 ≢ none)
      × (k.receivers channel 1 ≡ none → r channel 1 ≡ some k.current)
unfolding subscribe
subscribe-registered k channel = made (k.receivers channel 1) refl
  where
    made :
        (o : Option ℕ)
        → k.receivers channel 1 ≡ o
        → (r : ℕ → ℕ → Option ℕ) × (subscribe channel k ≡ ok tt (record k { receivers = r }))
          × (r channel 1 ≢ none)
          × (k.receivers channel 1 ≡ none → r channel 1 ≡ some k.current)
    made (some other) e = (k.receivers, rw e refl, λ bad. cc, λ bad. cc)
    made none e = (
      λ c i. if (c == channel) && (i == 1) then some k.current else k.receivers c i,
      rw e refl,
      λ bad. ground arith,
      λ _. ground arith,
    )

-- What a client does behind the delivery.
abbrev pub called : Kernel → (to channel : ℕ) → Kernel
called k to channel =
    let c = k.current in
    let k3 =
      set_proc k c
        (record (k.procs c) { state = (ProcState.receiver_wait (k.procs c).state channel).0 }) in
    let k4 = set_proc k3 c (set_reg (k3.procs c) Reg.a0 ErrorCode.interrupted) in
    let k5 =
      set_proc k4 to
        (record (k4.procs to) { state = ProcState.sender_release (k4.procs to).state }) in
    set_proc k5 c (record (k5.procs c) { state = ProcState.release (k5.procs c).state })

calls :
    {A : Type 0} (k : Kernel) (to channel : ℕ)
    → (do
      wait channel
      k' ← get
      put_reg k'.current Reg.a0 ErrorCode.interrupted
      release_receiver to
      sched_yield {A = A})
        k
      ≡ yield (called k to channel)
unfolding wait put_state put_reg release_receiver sched_yield
calls k to channel = refl

module _ (k : Kernel) (to channel : ℕ) (apart : k.current ≢ to) (fits : channel < 2 ^ 16)
    (runs : (current_proc k).state ≡ encode State.running)
    (holds : (k.procs to).state ≡ encode (State.receiving channel)) where
  called-client :
      (((called k to channel).procs k.current).state ≡ encode (State.waiting channel))
      × (((called k to channel).procs k.current).regs Reg.a0 ≡ ErrorCode.interrupted)
  unfolding set_proc set_reg
  called-client =
      let waits : ProcState.receiver_wait (k.procs k.current).state channel
          ≡ (encode (State.waiting channel), true) =
        rw runs (receiver_wait-encode channel fits State.running tt) in
      let stays = release-encode (State.waiting channel) fits in
      (rw waits (ground (arith, stays)), ground arith)

  called-server :
      (called k to channel).procs to ≡ record (k.procs to) { state = encode State.ready }
  unfolding set_proc set_reg
  called-server = ground (arith, holds, (sender_release-encode channel).0)

  called-others : (i : ℕ) → i ≢ to → i ≢ k.current → (called k to channel).procs i ≡ k.procs i
  unfolding set_proc set_reg
  called-others i away away' = ground arith

-- The state behind the delivery.
abbrev written : Kernel → (to channel : ℕ) → Message → Heap → Schedule → (ℕ → ℕ → Option ℕ) → Kernel
written k to channel m h s r =
    let k1 = receiving k to channel in
    set_proc (record k1 { heap = h; schedule = s; receivers = r }) to
      (write_message m (k1.procs to))

module _ (k : Kernel) (to channel : ℕ) (m : Message) (h : Heap) (s : Schedule)
    (r : ℕ → ℕ → Option ℕ) where
  written-procs :
      (((written k to channel m h s r).procs to).state ≡ encode (State.receiving channel))
      × IsDelivered
          (k.procs to)
          (record ((written k to channel m h s r).procs to) { state = encode State.ready })
          m
      × ((i : ℕ) → i ≢ to → (written k to channel m h s r).procs i ≡ k.procs i)
  unfolding receiving set_proc write_message set_reg
  written-procs = (
    ground arith,
    record {
      ready = refl;
      code = ground arith;
      msg0 = ground arith;
      msg1 = ground arith;
      msg2 = ground arith;
      msg3 = ground arith;
      others = λ i away. ground arith;
    },
    λ i away. ground arith,
  )

  written-parts :
      ((written k to channel m h s r).current ≡ k.current)
      × ((written k to channel m h s r).heap ≡ h)
  unfolding receiving set_proc
  written-parts = (refl, refl)

-- On a sound kernel, a client that runs and whose server waits for a request gives up the hart: the
-- server becomes ready with ERROR_OK and the four words in a0 to a4 and its other registers as they
-- were, the client waits at the channel with ERROR_INTERRUPTED in a0, a process is registered at the
-- channel for the reply, no other process changes, and a capability goes with the request exactly as
-- it does with a sender's message.
pub syscall_invoke_client-Called :
    {tables : Ptr} {rs : Rings} {k : Kernel}
    → IsSound tables rs k
    → (cap : Cap) (m : Message) (src_cidx to : ℕ) → IsValid cap
    → get_type cap ≡ CapType.client
    → k.receivers (Client.get_channel cap) 0 ≡ some to
    → (k.procs to).state ≡ encode (State.waiting (Client.get_channel cap))
    → (current_proc k).state ≡ encode State.running
    → IsLeft k.heap (get_cap_node (current_proc k) src_cidx)
    → (k' : Kernel) × (syscall_invoke_client cap m src_cidx k ≡ yield k')
      × IsDelivered (k.procs to) (k'.procs to) m
      × ((k'.procs k.current).state ≡ encode (State.waiting (Client.get_channel cap)))
      × ((k'.procs k.current).regs Reg.a0 ≡ ErrorCode.interrupted)
      × ((i : ℕ) → i ≢ to → i ≢ k.current → k'.procs i ≡ k.procs i)
      × (k'.receivers (Client.get_channel cap) 1 ≢ none)
      × Grants k to src_cidx k'.heap
unfolding syscall_invoke_client is_type set_proc
syscall_invoke_client-Called {tables} {rs} {k} sound cap m src_cidx to valid kind registered waits
      runs left =
    let channel = Client.get_channel cap in
    let lt : to < n_proc = rw registered at (sound.receivers channel 0) in
    let fits : channel < n_channels = valid.client kind in
    let k1 = receiving k to channel in
    let sound1 : IsSound tables rs k1 = unfold receiving in set_proc-IsSound sound to _ refl refl in
    let (h, s, r, run, grants) =
      deliver-Grants sound1 to m src_cidx lt (receiving-IsLeft k to channel src_cidx left) in
    let kd = written k to channel m h s r in
    let (r', subscribed, somebody, _) = subscribe-registered kd channel in
    let (holds, delivered, rest) = written-procs k to channel m h s r in
    let (same, same_heap) = written-parts k to channel m h s r in
    let apart : k.current ≢ to = λ e.
      let states = ap (λ (i : ℕ). (k.procs i).state) e in ground (arith, states, runs, waits) in
    let apart' : kd.current ≢ to = λ e. apart (sym same ∙ e) in
    let still : (current_proc kd).state ≡ encode State.running =
      ap (λ (i : ℕ). (kd.procs i).state) same
      ∙ (ap (λ (p : Proc). p.state) (rest k.current apart) ∙ runs) in
    let ks = record kd { receivers = r' } in
    let (waiting, interrupted) = called-client ks to channel apart' (omega arith) still holds in
    (
      called ks to channel,
      rw kind (
          bind-ok (acquire_waiting channel 0) _ {k = k}
            (acquire_waiting-receiving k channel 0 to fits registered waits)
          ∙ (bind-ok (deliver to m src_cidx) _ {k = k1} run
              ∙ (bind-ok (subscribe channel) _ {k = kd} subscribed ∙ calls ks to channel))),
      rw (called-server ks to channel apart' (omega arith) still holds) delivered,
      subst (λ (c : ℕ). ((called ks to channel).procs c).state ≡ encode (State.waiting channel))
          same waiting,
      subst (λ (c : ℕ). ((called ks to channel).procs c).regs Reg.a0 ≡ ErrorCode.interrupted) same
          interrupted,
      λ i away away'.
          called-others ks to channel apart' (omega arith) still holds i away
            (λ e. away' (e ∙ same))
          ∙ rest i away,
      somebody,
      receiving-Grants k to channel src_cidx h grants,
    )
