-- ===== src/Cap/Update/Uses.antt =====
-- What a capability allows besides what it owns alone, and that deriving adds nothing to it.
use separation_kernel.Prelude.{ℕ, ◌≤◌, ◌<◌, ◌≡◌, ◌⊎◌}
use separation_kernel.Cap.Base.{Cap, get_type}
use separation_kernel.Cap.CapType
use separation_kernel.Cap.Memory
use separation_kernel.Cap.Time
use separation_kernel.Cap.Channels
use separation_kernel.Cap.Receiver
use separation_kernel.Cap.Server
use separation_kernel.Cap.Supervisor
use separation_kernel.Cap.Pmp
use separation_kernel.Cap.Sender
use separation_kernel.Cap.Client
use separation_kernel.Prelude.Words.{◌&&&◌}
use separation_kernel.Cap.Derivation.{pmp_napot_begin, pmp_napot_end}
use separation_kernel.Cap.Derivation.Rules.{Derivation}

-- What several processes may do: to access a block of memory with the permissions of a mask of rwx,
-- and to send to, or to call, the other end of a channel, with the right to move capabilities or not.
pub data Use : Type 0 where
  access : (b mask : ℕ) → Use
  send : (channel grant : ℕ) → Use
  call : (channel grant : ℕ) → Use

-- A memory capability stands for what has not been handed out of its range, a PMP capability for its
-- frame, and whoever has the receiving end of a channel, or may make it, for the sending end.
abbrev pub Allows : Cap → Use → Type 0
Allows c (access b m) =
    ((get_type c ≡ CapType.memory)
      × (Memory.get_free c ≤ b)
      × (b < Memory.get_end c)
      × ((m &&& Memory.get_rwx c) ≡ m))
    ⊎ ((get_type c ≡ CapType.pmp)
        × (pmp_napot_begin (Pmp.get_addr c) ≤ b)
        × (b < pmp_napot_end (Pmp.get_addr c))
        × ((m &&& Pmp.get_rwx c) ≡ m))
Allows c (send n g) =
    ((get_type c ≡ CapType.sender) × (Sender.get_channel c ≡ n) × (Sender.get_grant c ≡ g))
    ⊎ ((get_type c ≡ CapType.receiver) × (Receiver.get_channel c ≡ n) × (Receiver.get_grant c ≡ g))
    ⊎ ((get_type c ≡ CapType.channels) × (Channels.get_free c ≤ n) × (n < Channels.get_end c))
Allows c (call n g) =
    ((get_type c ≡ CapType.client) × (Client.get_channel c ≡ n) × (Client.get_grant c ≡ g))
    ⊎ ((get_type c ≡ CapType.server) × (Server.get_channel c ≡ n) × (Server.get_grant c ≡ g))
    ⊎ ((get_type c ≡ CapType.channels) × (Channels.get_free c ≤ n) × (n < Channels.get_end c))

-- Neither `c` nor `p'` allows what `p` does not.
abbrev pub Narrows : Cap → Cap → Cap → Use → Type 0
Narrows p c p' u = (Allows c u → Allows p u) × (Allows p' u → Allows p u)
