-- ===== src/Cap/Update/Derive.antt =====
-- Deriving a capability keeps capabilities well-formed.
use separation_kernel.Prelude.Bits.{bit_and_mask_below}
use separation_kernel.Prelude.{◌+◌, ◌≡◌, some, true, arith}
use separation_kernel.Cap.Base.{Cap, IsWord}
use separation_kernel.Cap.Memory
use separation_kernel.Cap.Time
use separation_kernel.Cap.Channels
use separation_kernel.Cap.Receiver
use separation_kernel.Cap.Server
use separation_kernel.Cap.Supervisor
use separation_kernel.Cap.Derivation.{can_derive}
use separation_kernel.Cap.Derivation.Rules.{
  Derivation, memory_memory, memory_pmp, time_time, channels_channels, channels_receiver,
  channels_server, receiver_sender, server_client, supervisor_supervisor, can_derive_iff,
}
use separation_kernel.Cap.Update.{derive_update_cap}
use separation_kernel.Cap.Valid.Defs.{IsValid}
use separation_kernel.Cap.Valid.Setters

-- The update of the parent runs through, and parent and child are well-formed.
abbrev pub Derived : Cap → Cap → Type 0
Derived p c = (p' : Cap) × (derive_update_cap p c ≡ some p') × IsValid p' × IsValid c

Derivation-Derived : {p c : Cap} → IsValid p → IsWord c → Derivation p c → Derived p c
unfolding derive_update_cap Memory.fields Time.fields Channels.fields Supervisor.fields
Derivation-Derived {p} {c} v w (memory_memory tp tc h0 h1 h2 h3 h4 h5 h6) =
    let lt = Memory.Accessors.fields-lt c in
    let width = bit_and_mask_below 32 (Memory.get_end c) (omega arith) in
    (
      Memory.set_free p (Memory.get_end c),
      ground (arith, width),
      Setters.memory_free-IsValid p v (Memory.get_end c) tp (omega arith) (omega arith),
      ground arith,
    )
Derivation-Derived {p} {c} v w (memory_pmp tp tc h0 h1 h2) =
    let width = bit_and_mask_below 8 1 (omega arith) in
    (
      Memory.set_pmp p 1,
      ground (arith, width),
      Setters.memory_pmp-IsValid p v 1 tp (omega arith),
      ground arith,
    )
Derivation-Derived {p} {c} v w (time_time tp tc h0 h1 h2 h3 h4) =
    let lt = Time.Accessors.fields-lt c in
    let width = bit_and_mask_below 16 (Time.get_end c) (omega arith) in
    (
      Time.set_free p (Time.get_end c),
      ground (arith, width),
      Setters.time_free-IsValid p v (Time.get_end c) tp (omega arith) (omega arith),
      ground arith,
    )
Derivation-Derived {p} {c} v w (channels_channels tp tc h0 h1 h2 h3) =
    let lt = Channels.Accessors.fields-lt c in
    let width = bit_and_mask_below 16 (Channels.get_end c) (omega arith) in
    (
      Channels.set_free p (Channels.get_end c),
      ground (arith, width),
      Setters.channels_free-IsValid p v (Channels.get_end c) tp (omega arith) (omega arith),
      ground arith,
    )
Derivation-Derived {p} {c} v w (channels_receiver tp tc h0 h1 h2) =
    let range = v.channels tp in
    let width = bit_and_mask_below 16 (Receiver.get_channel c + 1) (omega arith) in
    (
      Channels.set_free p (Receiver.get_channel c + 1),
      ground (arith, width),
      Setters.channels_free-IsValid p v (Receiver.get_channel c + 1) tp (omega arith) (omega arith),
      ground arith,
    )
Derivation-Derived {p} {c} v w (channels_server tp tc h0 h1 h2) =
    let range = v.channels tp in
    let width = bit_and_mask_below 16 (Server.get_channel c + 1) (omega arith) in
    (
      Channels.set_free p (Server.get_channel c + 1),
      ground (arith, width),
      Setters.channels_free-IsValid p v (Server.get_channel c + 1) tp (omega arith) (omega arith),
      ground arith,
    )
Derivation-Derived {p} {c} v w (receiver_sender tp tc h0 h1) = (p, ground arith, v, ground arith)
Derivation-Derived {p} {c} v w (server_client tp tc h0 h1) = (p, ground arith, v, ground arith)
Derivation-Derived {p} {c} v w (supervisor_supervisor tp tc h0 h1 h2 h3) =
    let lt = Supervisor.Accessors.fields-lt c in
    let width = bit_and_mask_below 8 (Supervisor.get_end c) (omega arith) in
    (
      Supervisor.set_free p (Supervisor.get_end c),
      ground (arith, width),
      Setters.supervisor_free-IsValid p v (Supervisor.get_end c) tp (omega arith) (omega arith),
      ground arith,
    )

-- If `cap_can_derive` allows the words of a capability to be derived from a well-formed parent,
-- `derive_update_cap` meets no failed assertion, and both the updated parent and the new
-- capability are well-formed: no harts, quanta, channels or processes beyond the kernel's arrays.
pub derive-IsValid : (p c : Cap) → IsValid p → IsWord c → can_derive p c ≡ true → Derived p c
derive-IsValid p c valid w h = Derivation-Derived valid w ((can_derive_iff p c).0 h)
