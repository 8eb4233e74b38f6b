-- ===== src/Syscall/Ipc/Sent.antt =====
-- src/syscall.c: a sender whose receiver waits for it.
use separation_kernel.Prelude.{ℕ, ◌<◌, ◌≡◌, ◌∙◌, some}
use separation_kernel.Config.{n_proc}
use separation_kernel.Cap.{Cap, get_type, is_type}
use separation_kernel.Cap.CapType
use separation_kernel.Cap.Sender
use separation_kernel.Cap.Valid.Defs.{IsValid}
use separation_kernel.CapNode.{Ptr}
use separation_kernel.CapNode.Forest.{Rings}
use separation_kernel.Proc.{get_cap_node}
use separation_kernel.ProcState.View.{State, encode}
use separation_kernel.Kernel.{Kernel, ok, pure, current_proc}
use separation_kernel.Kernel.ErrorCode
use separation_kernel.Kernel.Runs.{bind-ok, seq-ok}
use separation_kernel.Kernel.Sound.{IsSound}
use separation_kernel.Syscall.Ipc.{
  Message, deliver, acquire_waiting, release_receiver, syscall_invoke_sender,
}
use separation_kernel.Syscall.Ipc.Granted.{IsLeft}
use separation_kernel.Syscall.Ipc.Delivered.{
  Sent, receiving, acquire_waiting-receiving, deliver-Sent,
}

-- On a sound kernel, a sender whose receiver waits at the channel gets ERROR_OK: the receiver becomes
-- ready with ERROR_OK and the four words in a0 to a4 and all its other registers as they were, no
-- other process changes, and a capability moves from the caller to the receiver exactly if both
-- indices are within a table, the caller has a capability at its index and the receiver none.
-- The condition is that the capability is not for time that has been handed out to the end.
pub syscall_invoke_sender-Sent :
    {tables : Ptr} {rs : Rings} {k : Kernel}
    → IsSound tables rs k
    → (cap : Cap) (m : Message) (src_cidx to : ℕ) → IsValid cap
    → get_type cap ≡ CapType.sender
    → k.receivers (Sender.get_channel cap) 0 ≡ some to
    → (k.procs to).state ≡ encode (State.waiting (Sender.get_channel cap))
    → IsLeft k.heap (get_cap_node (current_proc k) src_cidx)
    → (k' : Kernel) × (syscall_invoke_sender cap m src_cidx k ≡ ok ErrorCode.ok k')
      × Sent k k' to src_cidx m
unfolding syscall_invoke_sender is_type
syscall_invoke_sender-Sent {tables} {rs} {k} sound cap m src_cidx to valid kind registered waits
      left =
    let channel = Sender.get_channel cap in
    let lt : to < n_proc = rw registered at (sound.receivers channel 0) in
    let (k', run, sent) = deliver-Sent sound channel to m src_cidx lt left in
    (
      k',
      rw kind (
          bind-ok (acquire_waiting channel 0) _ {k = k}
            (acquire_waiting-receiving k channel 0 to (valid.sender kind) registered waits)
          ∙ seq-ok (deliver to m src_cidx) (release_receiver to) (pure ErrorCode.ok)
              (receiving k to channel) run),
      sent,
    )
