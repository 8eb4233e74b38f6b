-- ===== src/Syscall/Ipc/Send.antt =====
-- src/syscall.c: a message to a channel at which nobody waits.
use separation_kernel.Prelude.{ℕ, ◌<◌, ◌≡◌, refl, ◌∙◌, ltb, true, false, Option, none, some, arith}
use separation_kernel.Config.{n_channels}
use separation_kernel.Cap.{Cap, is_type}
use separation_kernel.Cap.CapType
use separation_kernel.Cap.Sender
use separation_kernel.ProcState
use separation_kernel.Kernel.{Kernel, ok, assert}
use separation_kernel.Kernel.Runs.{bind-ok}
use separation_kernel.Kernel.ErrorCode
use separation_kernel.Syscall.Ipc.{Message, syscall_invoke_sender, acquire_waiting, acquire_from}

-- Nobody can be sent a message at the channel: no receiver is registered, or it is not waiting there.
abbrev pub IsUnattended : Kernel → (channel : ℕ) → Option ℕ → Type 0
IsUnattended k channel none = Unit {0}
IsUnattended k channel (some to) = (ProcState.sender_acquire (k.procs to).state channel).1 ≡ false

acquire_waiting-unattended :
    (k : Kernel) (channel i : ℕ)
    → channel < n_channels
    → IsUnattended k channel (k.receivers channel i)
    → acquire_waiting channel i k ≡ ok none k
unfolding acquire_waiting acquire_from
acquire_waiting-unattended k channel i lt un =
    bind-ok (assert (ltb channel n_channels)) _ {k = k} {k' = k} (rw in_range refl)
    ∙ tried (k.receivers channel i) refl un
  where
    in_range : ltb channel n_channels ≡ true
    in_range = ground arith

    tried :
        (o : Option ℕ)
        → k.receivers channel i ≡ o
        → IsUnattended k channel o
        → acquire_from (k.receivers channel i) channel k ≡ ok none k
    tried none e un = rw e refl
    tried (some to) e un = rw (e, un) refl

-- A sender whose channel has no receiver waiting gets ERROR_NO_RECEIVER, and nothing changes.
pub syscall_invoke_sender-unattended :
    (k : Kernel) (cap : Cap) (m : Message) (src_cidx : ℕ)
    → is_type cap CapType.sender ≡ true
    → Sender.get_channel cap < n_channels
    → IsUnattended k (Sender.get_channel cap) (k.receivers (Sender.get_channel cap) 0)
    → syscall_invoke_sender cap m src_cidx k ≡ ok ErrorCode.no_receiver k
unfolding syscall_invoke_sender
syscall_invoke_sender-unattended k cap m src_cidx h lt un =
    bind-ok (assert (is_type cap CapType.sender)) _ (rw h refl)
    ∙ bind-ok (acquire_waiting (Sender.get_channel cap) 0) _ nobody
  where
    nobody : acquire_waiting (Sender.get_channel cap) 0 k ≡ ok none k
    nobody = acquire_waiting-unattended k (Sender.get_channel cap) 0 lt un
