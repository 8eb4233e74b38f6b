-- ===== src/Syscall/Ipc.antt =====
-- src/syscall.c: messages over channels, by receivers and senders, servers and clients. A channel
-- beyond the array of receivers is a fault.
pub mod Called
pub mod Delivered
pub mod Granted
pub mod Replied
pub mod Send
pub mod Sent
use separation_kernel.Prelude.{
  ℕ, Bool, true, false, not, ◌&&◌, Option, none, some, ltb, ◌==◌, if◌then◌else◌,
}
use separation_kernel.Config.{n_caps, n_channels}
use separation_kernel.Cap.{Cap, is_type}
use separation_kernel.Cap.CapType
use separation_kernel.Cap.Receiver
use separation_kernel.Cap.Sender
use separation_kernel.Cap.Server
use separation_kernel.Cap.Client
use separation_kernel.Proc.{Proc, set_reg}
use separation_kernel.Proc.Reg
use separation_kernel.ProcState
use separation_kernel.Kernel.{
  Kernel, Outcome, ok, fault, yield, M, pure, ◌>>=◌, ◌>>◌, get, put, assert, when, set_proc,
  put_reg, put_state,
}
use separation_kernel.Kernel.ErrorCode
use separation_kernel.Syscall.Hook.{interprocess_move}
use separation_kernel.Syscall.Basic.{sched_yield}

pub record Message : Type 0 where
  pub msg0 : ℕ
  pub msg1 : ℕ
  pub msg2 : ℕ
  pub msg3 : ℕ

-- `proc_receiver_wait(current, channel)`, whose result the callers do not look at.
unfoldable pub wait : (channel : ℕ) → M (Unit {0})
wait channel = do
  k ← get
  put_state k.current (ProcState.receiver_wait (k.procs k.current).state channel).0

-- The receiver's registers for a message, stored one by one.
unfoldable pub write_message : Message → Proc → Proc
unfolding set_reg
write_message m p =
    set_reg
      (set_reg (set_reg (set_reg (set_reg p Reg.a0 ErrorCode.ok) Reg.a1 m.msg0) Reg.a2 m.msg1)
        Reg.a3 m.msg2)
      Reg.a4 m.msg3

-- What senders, servers and clients do to the process `to` that they have acquired: a capability
-- is moved if both indices are within a table, whatever becomes of it, and the message is stored.
unfoldable pub deliver : (to : ℕ) → Message → (src_cidx : ℕ) → M (Unit {0})
unfolding set_proc write_message
deliver to m src_cidx = do
  k ← get
  let dest_cidx = (k.procs to).regs Reg.dest_cidx
  when (ltb src_cidx n_caps && ltb dest_cidx n_caps)
      (interprocess_move k.current src_cidx to dest_cidx >>= λ _. pure tt)
  k' ← get
  put (set_proc k' to (write_message m (k'.procs to)))

-- `receiver == NULL || !proc_sender_acquire(receiver, channel)`, with the receiver that was acquired.
unfoldable pub acquire_from : (receiver : Option ℕ) (channel : ℕ) → M (Option ℕ)
acquire_from none channel = pure none
acquire_from (some to) channel = do
  k ← get
  let (state, acquired) = ProcState.sender_acquire (k.procs to).state channel
  if acquired then (do put_state to state; pure (some to)) else pure none

-- `receivers[channel][i]`, if the process there waits at the channel and was acquired.
unfoldable pub acquire_waiting : (channel i : ℕ) → M (Option ℕ)
unfolding acquire_from
acquire_waiting channel i = do
  assert (ltb channel n_channels)
  k ← get
  acquire_from (k.receivers channel i) channel

-- `proc_sender_release`.
unfoldable pub release_receiver : (to : ℕ) → M (Unit {0})
release_receiver to = do k ← get; put_state to (ProcState.sender_release (k.procs to).state)

unfoldable pub syscall_invoke_receiver : Cap → M ℕ
syscall_invoke_receiver cap = do
  assert (is_type cap CapType.receiver)
  wait (Receiver.get_channel cap)
  sched_yield

unfoldable pub syscall_invoke_sender : Cap → Message → (src_cidx : ℕ) → M ℕ
syscall_invoke_sender cap m src_cidx = do
  assert (is_type cap CapType.sender)
  acquired ← acquire_waiting (Sender.get_channel cap) 0
  elim acquired [
    | none ↦ pure ErrorCode.no_receiver
    | some to ↦ (do deliver to m src_cidx; release_receiver to; pure ErrorCode.ok)
  ]

-- Whatever `do_receive` is.
unfoldable pub syscall_invoke_server : Cap → Message → (src_cidx do_receive : ℕ) → M ℕ
syscall_invoke_server cap m src_cidx do_receive = do
  assert (is_type cap CapType.server)
  acquired ← acquire_waiting (Server.get_channel cap) 1
  elim acquired [ none ↦ pure tt | some to ↦ (do deliver to m src_cidx; release_receiver to) ]
  wait (Server.get_channel cap)
  sched_yield

-- `compare_and_swap(&receivers[channel][1], NULL, current)`.
unfoldable pub subscribe : (channel : ℕ) → M (Unit {0})
subscribe channel = do
  k ← get
  elim (k.receivers channel 1) [
    | some _ ↦ pure tt
    | none ↦ put (record k {
      receivers = λ c i. if (c == channel) && (i == 1) then some k.current else k.receivers c i;
    })
  ]

unfoldable pub syscall_invoke_client : Cap → Message → (src_cidx : ℕ) → M ℕ
syscall_invoke_client cap m src_cidx = do
  assert (is_type cap CapType.client)
  acquired ← acquire_waiting (Client.get_channel cap) 0
  elim acquired [
    | none ↦ pure ErrorCode.no_receiver
    | some to ↦ (do
      deliver to m src_cidx
      subscribe (Client.get_channel cap)
      wait (Client.get_channel cap)
      k ← get
      put_reg k.current Reg.a0 ErrorCode.interrupted
      release_receiver to
      sched_yield)
  ]
