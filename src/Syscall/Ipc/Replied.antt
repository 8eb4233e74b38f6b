-- ===== src/Syscall/Ipc/Replied.antt =====
-- src/syscall.c: a server answers the client that waits for it, and waits for the next request.
use separation_kernel.Prelude.{ℕ, ◌^◌, ◌<◌, ◌≡◌, ◌≢◌, refl, ap, sym, ◌∙◌, true, some, ◌==◌, arith}
use separation_kernel.Config.{n_proc, n_channels}
use separation_kernel.Cap.{Cap, get_type, is_type}
use separation_kernel.Cap.CapType
use separation_kernel.Cap.Server
use separation_kernel.Cap.Valid.Defs.{IsValid}
use separation_kernel.CapNode.{Ptr}
use separation_kernel.CapNode.Forest.{Rings}
use separation_kernel.Proc.{Proc, get_cap_node}
use separation_kernel.ProcState.View.{State, encode, receiver_wait-encode, release-encode}
use separation_kernel.Kernel.{Kernel, yield, ◌>>◌, current_proc, set_proc, put_state}
use separation_kernel.Kernel.Runs.{bind-ok}
use separation_kernel.Kernel.Sound.{IsSound}
use separation_kernel.Syscall.Basic.{sched_yield}
use separation_kernel.Syscall.Ipc.{
  Message, wait, deliver, acquire_waiting, release_receiver, syscall_invoke_server,
}
use separation_kernel.Syscall.Ipc.Granted.{IsLeft}
use separation_kernel.Syscall.Ipc.Delivered.{
  IsDelivered, Grants, receiving, acquire_waiting-receiving, deliver-Sent,
}

-- A running process starts to wait.
unfoldable pub awaiting : Kernel → (channel : ℕ) → Kernel
unfolding set_proc
awaiting k channel =
    let k1 =
      set_proc k k.current (record (current_proc k) { state = encode (State.waiting channel) }) in
    set_proc k1 k.current (record (current_proc k1) { state = encode (State.waiting channel) })

-- The process gives up the hart and keeps its place at the channel.
pub wait-awaiting :
    {A : Type 0} (k : Kernel) (channel : ℕ)
    → channel < 2 ^ 16
    → (current_proc k).state ≡ encode State.running
    → (wait channel >> sched_yield {A = A}) k ≡ yield (awaiting k channel)
unfolding wait put_state sched_yield awaiting set_proc
wait-awaiting k channel fits runs =
    let waits = receiver_wait-encode channel fits State.running tt in
    let stays = release-encode (State.waiting channel) fits in
    let self : (k.current == k.current) ≡ true = ground arith in rw (runs, waits, self, stays) refl

awaiting-heap : (k : Kernel) (channel : ℕ) → (awaiting k channel).heap ≡ k.heap
unfolding awaiting
awaiting-heap k channel = refl

pub awaiting-procs :
    (k : Kernel) (channel : ℕ)
    → (((awaiting k channel).procs k.current).state ≡ encode (State.waiting channel))
      × ((i : ℕ) → i ≢ k.current → (awaiting k channel).procs i ≡ k.procs i)
unfolding awaiting
awaiting-procs k channel = (ground arith, λ i away. ground arith)

-- On a sound kernel, a server that runs and whose client waits for a reply gives up the hart, whatever
-- `do_receive` asks for: the
-- client becomes ready with ERROR_OK and the four words in a0 to a4 and its other registers as they
-- were, the server waits at its channel, no other process changes, and a capability goes with the
-- reply exactly as it does with a sender's message.
pub syscall_invoke_server-Sent :
    {tables : Ptr} {rs : Rings} {k : Kernel}
    → IsSound tables rs k
    → (cap : Cap) (m : Message) (src_cidx do_receive to : ℕ) → IsValid cap
    → get_type cap ≡ CapType.server
    → k.receivers (Server.get_channel cap) 1 ≡ some to
    → (k.procs to).state ≡ encode (State.waiting (Server.get_channel cap))
    → (current_proc k).state ≡ encode State.running
    → IsLeft k.heap (get_cap_node (current_proc k) src_cidx)
    → (k' : Kernel) × (syscall_invoke_server cap m src_cidx do_receive k ≡ yield k')
      × IsDelivered (k.procs to) (k'.procs to) m
      × ((k'.procs k.current).state ≡ encode (State.waiting (Server.get_channel cap)))
      × ((i : ℕ) → i ≢ to → i ≢ k.current → k'.procs i ≡ k.procs i)
      × Grants k to src_cidx k'.heap
unfolding syscall_invoke_server is_type
syscall_invoke_server-Sent {tables} {rs} {k} sound cap m src_cidx do_receive to valid kind
      registered waits runs left =
    let channel = Server.get_channel cap in
    let lt : to < n_proc = rw registered at (sound.receivers channel 1) in
    let fits : channel < n_channels = valid.server kind in
    let (kd, run, sent) = deliver-Sent sound channel to m src_cidx lt left in
    let apart : k.current ≢ to =
      λ e. let same = ap (λ (i : ℕ). (k.procs i).state) e in ground (arith, same, runs, waits) in
    let still : (current_proc kd).state ≡ encode State.running =
      ap (λ (i : ℕ). (kd.procs i).state) sent.current
      ∙ (ap (λ (p : Proc). p.state) (sent.others k.current apart) ∙ runs) in
    let (waiting, others) = awaiting-procs kd channel in
    (
      awaiting kd channel,
      rw kind (
          bind-ok (acquire_waiting channel 1) _ {k = k}
            (acquire_waiting-receiving k channel 1 to fits registered waits)
          ∙ (bind-ok (deliver to m src_cidx >> release_receiver to) _ {k = receiving k to channel}
                run
              ∙ wait-awaiting {A = ℕ} kd channel (omega arith) still)),
      rw (others to (λ e. apart (sym (e ∙ sent.current)))) sent.delivered,
      rw sent.current at waiting,
      λ i away away'. others i (λ e. away' (e ∙ sent.current)) ∙ sent.others i away,
      rw (awaiting-heap kd channel) sent.grants,
    )
