-- ===== src/Cap/Update/Authority.antt =====
-- What a capability owns alone, and how deriving one splits it between parent and child.
use separation_kernel.Prelude.{ℕ, ◌≤◌, ◌<◌, ◌≡◌, ◌⊎◌, some, true, arith}
use separation_kernel.Cap.Base.{Cap, get_type, IsWord}
use separation_kernel.Cap.CapType
use separation_kernel.Cap.Memory
use separation_kernel.Cap.Time
use separation_kernel.Cap.Channels
use separation_kernel.Cap.Receiver
use separation_kernel.Cap.Server
use separation_kernel.Cap.Supervisor
use separation_kernel.Cap.Derivation.{can_derive}
use separation_kernel.Cap.Derivation.Rules.{
  Derivation, memory_memory, memory_pmp, time_time, channels_channels, channels_receiver,
  channels_server, receiver_sender, server_client, supervisor_supervisor, can_derive_iff,
}
use separation_kernel.Cap.Update.{derive_update_cap}
use separation_kernel.Cap.Update.Parent.{
  memory_memory_parent, memory_pmp_parent, time_parent, channels_channels_parent,
  channels_receiver_parent, channels_server_parent, receiver_parent, server_parent,
  supervisor_parent,
}

-- What at most one process should hold.
pub data Right : Type 0 where
  block : ℕ → Right  -- a block of memory
  slot : (hart quantum : ℕ) → Right  -- a time slice of a hart
  channel : ℕ → Right  -- the receiving end of an IPC channel
  process : ℕ → Right  -- the supervision of a process

-- The part of a range that has not been handed out, and the end of a channel.
abbrev pub Owns : Cap → Right → Type 0
Owns c (block b) = (get_type c ≡ CapType.memory) × (Memory.get_free c ≤ b) × (b < Memory.get_end c)
Owns c (slot h q) =
    (get_type c ≡ CapType.time)
    × (Time.get_hartid c ≡ h)
    × (Time.get_free c ≤ q)
    × (q < Time.get_end c)
Owns c (channel n) =
    ((get_type c ≡ CapType.channels) × (Channels.get_free c ≤ n) × (n < Channels.get_end c))
    ⊎ ((get_type c ≡ CapType.receiver) × (Receiver.get_channel c ≡ n))
    ⊎ ((get_type c ≡ CapType.server) × (Server.get_channel c ≡ n))
Owns c (process i) =
    (get_type c ≡ CapType.supervisor) × (Supervisor.get_free c ≤ i) × (i < Supervisor.get_end c)

-- `p` was split into `p'` and `c`.
abbrev pub Splits : Cap → Cap → Cap → Right → Type 0
Splits p c p' r = (Owns c r → Owns p r) × (Owns p' r → Owns p r) × ¬ (Owns c r × Owns p' r)

module _ (p c p' : Cap) (w : IsWord p) (e : derive_update_cap p c ≡ some p') where
  block-Splits : Derivation p c → (b : ℕ) → Splits p c p' (block b)
  unfolding Memory.fields Time.fields Channels.fields Supervisor.fields
  block-Splits (memory_memory tp tc h0 h1 h2 h3 h4 h5 h6) b =
      ground (arith, memory_memory_parent p c p' w e tp tc)
  block-Splits (memory_pmp tp tc h0 h1 h2) b = ground (arith, memory_pmp_parent p c p' w e tp tc)
  block-Splits (time_time tp tc h0 h1 h2 h3 h4) b = ground (arith, time_parent p c p' w e tp)
  block-Splits (channels_channels tp tc h0 h1 h2 h3) b =
      ground (arith, channels_channels_parent p c p' w e tp tc)
  block-Splits (channels_receiver tp tc h0 h1 h2) b =
      ground (arith, channels_receiver_parent p c p' w e tp tc h1)
  block-Splits (channels_server tp tc h0 h1 h2) b =
      ground (arith, channels_server_parent p c p' w e tp tc h1)
  block-Splits (receiver_sender tp tc h0 h1) b = ground (arith, receiver_parent p c p' w e tp)
  block-Splits (server_client tp tc h0 h1) b = ground (arith, server_parent p c p' w e tp)
  block-Splits (supervisor_supervisor tp tc h0 h1 h2 h3) b =
      ground (arith, supervisor_parent p c p' w e tp)

  slot-Splits : Derivation p c → (h q : ℕ) → Splits p c p' (slot h q)
  unfolding Memory.fields Time.fields Channels.fields Supervisor.fields
  slot-Splits (memory_memory tp tc h0 h1 h2 h3 h4 h5 h6) h q =
      ground (arith, memory_memory_parent p c p' w e tp tc)
  slot-Splits (memory_pmp tp tc h0 h1 h2) h q = ground (arith, memory_pmp_parent p c p' w e tp tc)
  slot-Splits (time_time tp tc h0 h1 h2 h3 h4) h q = ground (arith, time_parent p c p' w e tp)
  slot-Splits (channels_channels tp tc h0 h1 h2 h3) h q =
      ground (arith, channels_channels_parent p c p' w e tp tc)
  slot-Splits (channels_receiver tp tc h0 h1 h2) h q =
      ground (arith, channels_receiver_parent p c p' w e tp tc h1)
  slot-Splits (channels_server tp tc h0 h1 h2) h q =
      ground (arith, channels_server_parent p c p' w e tp tc h1)
  slot-Splits (receiver_sender tp tc h0 h1) h q = ground (arith, receiver_parent p c p' w e tp)
  slot-Splits (server_client tp tc h0 h1) h q = ground (arith, server_parent p c p' w e tp)
  slot-Splits (supervisor_supervisor tp tc h0 h1 h2 h3) h q =
      ground (arith, supervisor_parent p c p' w e tp)

  channel-Splits : Derivation p c → (n : ℕ) → Splits p c p' (channel n)
  unfolding Memory.fields Time.fields Channels.fields Supervisor.fields
  channel-Splits (memory_memory tp tc h0 h1 h2 h3 h4 h5 h6) n =
      ground (arith, memory_memory_parent p c p' w e tp tc)
  channel-Splits (memory_pmp tp tc h0 h1 h2) n = ground (arith, memory_pmp_parent p c p' w e tp tc)
  channel-Splits (time_time tp tc h0 h1 h2 h3 h4) n = ground (arith, time_parent p c p' w e tp)
  channel-Splits (channels_channels tp tc h0 h1 h2 h3) n =
      ground (arith, channels_channels_parent p c p' w e tp tc)
  channel-Splits (channels_receiver tp tc h0 h1 h2) n =
      ground (arith, channels_receiver_parent p c p' w e tp tc h1)
  channel-Splits (channels_server tp tc h0 h1 h2) n =
      ground (arith, channels_server_parent p c p' w e tp tc h1)
  channel-Splits (receiver_sender tp tc h0 h1) n = ground (arith, receiver_parent p c p' w e tp)
  channel-Splits (server_client tp tc h0 h1) n = ground (arith, server_parent p c p' w e tp)
  channel-Splits (supervisor_supervisor tp tc h0 h1 h2 h3) n =
      ground (arith, supervisor_parent p c p' w e tp)

  process-Splits : Derivation p c → (i : ℕ) → Splits p c p' (process i)
  unfolding Memory.fields Time.fields Channels.fields Supervisor.fields
  process-Splits (memory_memory tp tc h0 h1 h2 h3 h4 h5 h6) i =
      ground (arith, memory_memory_parent p c p' w e tp tc)
  process-Splits (memory_pmp tp tc h0 h1 h2) i = ground (arith, memory_pmp_parent p c p' w e tp tc)
  process-Splits (time_time tp tc h0 h1 h2 h3 h4) i = ground (arith, time_parent p c p' w e tp)
  process-Splits (channels_channels tp tc h0 h1 h2 h3) i =
      ground (arith, channels_channels_parent p c p' w e tp tc)
  process-Splits (channels_receiver tp tc h0 h1 h2) i =
      ground (arith, channels_receiver_parent p c p' w e tp tc h1)
  process-Splits (channels_server tp tc h0 h1 h2) i =
      ground (arith, channels_server_parent p c p' w e tp tc h1)
  process-Splits (receiver_sender tp tc h0 h1) i = ground (arith, receiver_parent p c p' w e tp)
  process-Splits (server_client tp tc h0 h1) i = ground (arith, server_parent p c p' w e tp)
  process-Splits (supervisor_supervisor tp tc h0 h1 h2 h3) i =
      ground (arith, supervisor_parent p c p' w e tp)

-- What the new capability or the updated parent owns the parent owned before, and no memory block, time slice, channel or process is owned by both.
pub derive-Splits :
    (p c p' : Cap)
    → IsWord p
    → can_derive p c ≡ true
    → derive_update_cap p c ≡ some p'
    → (r : Right) → Splits p c p' r
derive-Splits p c p' w h e (block b) = block-Splits p c p' w e ((can_derive_iff p c).0 h) b
derive-Splits p c p' w h e (slot a q) = slot-Splits p c p' w e ((can_derive_iff p c).0 h) a q
derive-Splits p c p' w h e (channel n) = channel-Splits p c p' w e ((can_derive_iff p c).0 h) n
derive-Splits p c p' w h e (process i) = process-Splits p c p' w e ((can_derive_iff p c).0 h) i
