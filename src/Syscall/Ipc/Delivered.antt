-- ===== src/Syscall/Ipc/Delivered.antt =====
-- src/syscall.c: a message to a receiver that waits for it.
use separation_kernel.Prelude.{
  ℕ, ◌<◌, ◌≡◌, ◌≢◌, ◌⊎◌, refl, true, ◌&&◌, Option, some, ltb, ◌==◌, if◌then◌else◌, Bool-cases, inl,
  inr, arith,
}
use separation_kernel.Config.{n_proc, n_caps, n_channels}
use separation_kernel.CapNode.{Ptr, Heap}
use separation_kernel.CapNode.Forest.{Rings}
use separation_kernel.Proc.{Proc, get_cap_node, set_reg}
use separation_kernel.Proc.Reg
use separation_kernel.ProcState
use separation_kernel.ProcState.View.{State, encode, sender_acquire-encode, sender_release-encode}
use separation_kernel.Sched.{Schedule}
use separation_kernel.Kernel.{Kernel, ok, pure, ◌>>=◌, ◌>>◌, current_proc, set_proc, put_state}
use separation_kernel.Kernel.ErrorCode
use separation_kernel.Kernel.Runs.{bind-ok}
use separation_kernel.Kernel.Sound.{IsSound}
use separation_kernel.Kernel.Sound.Parts.{set_proc-IsSound}
use separation_kernel.Syscall.Hook.{interprocess_move}
use separation_kernel.Syscall.Ipc.{
  Message, write_message, deliver, acquire_waiting, acquire_from, release_receiver,
}
use separation_kernel.Syscall.Ipc.Granted.{IsLeft, Moves, interprocess_move-Moves}

-- The receiver goes on with the message in its registers, and finds all others as they were.
pub record IsDelivered (p q : Proc) (m : Message) : Type 0 where
  pub ready : q.state ≡ encode State.ready
  pub code : q.regs Reg.a0 ≡ ErrorCode.ok
  pub msg0 : q.regs Reg.a1 ≡ m.msg0
  pub msg1 : q.regs Reg.a2 ≡ m.msg1
  pub msg2 : q.regs Reg.a3 ≡ m.msg2
  pub msg3 : q.regs Reg.a4 ≡ m.msg3
  pub others : (i : ℕ) → (i < Reg.a0) ⊎ (Reg.a4 < i) → q.regs i ≡ p.regs i

-- A capability goes with the message if both indices are within a table.
abbrev pub Grants : Kernel → (to src_cidx : ℕ) → Heap → Type 0
Grants k to src_cidx h =
    let dest_cidx = (k.procs to).regs Reg.dest_cidx in
    if ltb src_cidx n_caps && ltb dest_cidx n_caps
    then ((code : ℕ) × Moves k.heap h (get_cap_node (current_proc k) src_cidx)
          (get_cap_node (k.procs to) dest_cidx) code)
    else h ≡ k.heap

module _ {tables : Ptr} {rs : Rings} {k : Kernel} (sound : IsSound tables rs k) where
  pub deliver-Grants :
      (to : ℕ) (m : Message) (src_cidx : ℕ)
      → to < n_proc
      → IsLeft k.heap (get_cap_node (current_proc k) src_cidx)
      → (h : Heap) × (s : Schedule) × (r : ℕ → ℕ → Option ℕ) × (deliver to m src_cidx k
          ≡ ok tt (
              set_proc
                (record k { heap = h; schedule = s; receivers = r })
                to
                (write_message m (k.procs to))))
        × Grants k to src_cidx h
  unfolding deliver
  deliver-Grants to m src_cidx lt left =
      let dest_cidx = (k.procs to).regs Reg.dest_cidx in
      elim (Bool-cases (ltb src_cidx n_caps && ltb dest_cidx n_caps)) [
        | inr bare ↦ (k.heap, k.schedule, k.receivers, rw bare refl, rw bare refl)
        | inl grant ↦
            let (h, s, r, code, run, moves) =
              interprocess_move-Moves sound k.current src_cidx to dest_cidx sound.current lt left in
            (
              h,
              s,
              r,
              rw grant (
                  bind-ok (interprocess_move k.current src_cidx to dest_cidx >>= λ _. pure tt) _
                    {k = k}
                    (bind-ok (interprocess_move k.current src_cidx to dest_cidx) (λ _. pure tt)
                      {k = k} run)),
              rw grant (code, moves),
            )
      ]

-- The state in which the receiver has been acquired.
unfoldable pub receiving : Kernel → (to channel : ℕ) → Kernel
unfolding set_proc
receiving k to channel =
    set_proc k to (record (k.procs to) { state = encode (State.receiving channel) })

pub acquire_waiting-receiving :
    (k : Kernel) (channel i to : ℕ)
    → channel < n_channels
    → k.receivers channel i ≡ some to
    → (k.procs to).state ≡ encode (State.waiting channel)
    → acquire_waiting channel i k ≡ ok (some to) (receiving k to channel)
unfolding acquire_waiting acquire_from put_state receiving
acquire_waiting-receiving k channel i to lt registered waits =
    let in_range : ltb channel n_channels ≡ true = ground arith in
    let self : (channel == channel) ≡ true = ground arith in
    let acquired =
      rw self at
        (sender_acquire-encode channel (omega arith) (State.waiting channel) (omega arith)) in
    rw (in_range, registered, waits, acquired) refl

module _ (k : Kernel) (to channel : ℕ) where
  receiving-node :
      (i cidx : ℕ)
      → get_cap_node ((receiving k to channel).procs i) cidx ≡ get_cap_node (k.procs i) cidx
  unfolding receiving get_cap_node
  receiving-node i cidx = ground arith

  receiving-regs : (i reg : ℕ) → ((receiving k to channel).procs i).regs reg ≡ (k.procs i).regs reg
  unfolding receiving
  receiving-regs i reg = ground arith

  receiving-heap : (receiving k to channel).heap ≡ k.heap
  unfolding receiving
  receiving-heap = refl

  receiving-current : (receiving k to channel).current ≡ k.current
  unfolding receiving
  receiving-current = refl

  -- The nodes that the indices name are those of the kernel before.
  pub receiving-Grants :
      (src_cidx : ℕ) (h : Heap)
      → Grants (receiving k to channel) to src_cidx h
      → Grants k to src_cidx h
  receiving-Grants src_cidx h g =
      rw
        (
          receiving-regs to Reg.dest_cidx,
          receiving-node (receiving k to channel).current src_cidx,
          receiving-node to ((k.procs to).regs Reg.dest_cidx),
          receiving-heap,
          receiving-current,
        )
        at g

  pub receiving-IsLeft :
      (src_cidx : ℕ)
      → IsLeft k.heap (get_cap_node (current_proc k) src_cidx)
      → IsLeft
          (receiving k to channel).heap
          (get_cap_node (current_proc (receiving k to channel)) src_cidx)
  receiving-IsLeft src_cidx left =
      rw
        (
          receiving-node (receiving k to channel).current src_cidx,
          receiving-heap,
          receiving-current,
        )
        left

  -- The state behind the release of the receiver.
  abbrev released : Message → Heap → Schedule → (ℕ → ℕ → Option ℕ) → Kernel
  released m h s r =
      let k1 = receiving k to channel in
      let k2 =
        set_proc (record k1 { heap = h; schedule = s; receivers = r }) to
          (write_message m (k1.procs to)) in
      set_proc k2 to (record (k2.procs to) { state = ProcState.sender_release (k2.procs to).state })

  released-IsDelivered :
      (m : Message) (h : Heap) (s : Schedule) (r : ℕ → ℕ → Option ℕ)
      → IsDelivered (k.procs to) ((released m h s r).procs to) m
        × ((i : ℕ) → i ≢ to → (released m h s r).procs i ≡ k.procs i)
  unfolding receiving set_proc write_message set_reg
  released-IsDelivered m h s r = (
    record {
      ready = ground (arith, (sender_release-encode channel).0);
      code = ground arith;
      msg0 = ground arith;
      msg1 = ground arith;
      msg2 = ground arith;
      msg3 = ground arith;
      others = λ i away. ground arith;
    },
    λ i away. ground arith,
  )

-- What the message does to the kernel: nothing to the processes but the receiver.
pub record Sent (k k' : Kernel) (to src_cidx : ℕ) (m : Message) : Type 0 where
  pub delivered : IsDelivered (k.procs to) (k'.procs to) m
  pub others : (i : ℕ) → i ≢ to → k'.procs i ≡ k.procs i
  pub grants : Grants k to src_cidx k'.heap
  pub current : k'.current ≡ k.current

-- A receiver that has been acquired gets the message and is released.
pub deliver-Sent :
    {tables : Ptr} {rs : Rings} {k : Kernel}
    → IsSound tables rs k
    → (channel to : ℕ) (m : Message) (src_cidx : ℕ) → to < n_proc
    → IsLeft k.heap (get_cap_node (current_proc k) src_cidx)
    → (k' : Kernel) × ((deliver to m src_cidx >> release_receiver to) (receiving k to channel)
        ≡ ok tt k')
      × Sent k k' to src_cidx m
unfolding release_receiver put_state
deliver-Sent {tables} {rs} {k} sound channel to m src_cidx lt left =
    let k1 = receiving k to channel in
    let sound1 : IsSound tables rs k1 = unfold receiving in set_proc-IsSound sound to _ refl refl in
    let (h, s, r, run, grants) =
      deliver-Grants sound1 to m src_cidx lt (receiving-IsLeft k to channel src_cidx left) in
    let (delivered, others) = released-IsDelivered k to channel m h s r in
    (
      released k to channel m h s r,
      bind-ok (deliver to m src_cidx) _ {k = k1} run,
      record {
        delivered = delivered;
        others = others;
        grants = receiving-Grants k to channel src_cidx h grants;
        current = receiving-current k to channel;
      },
    )
