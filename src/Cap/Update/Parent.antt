-- ===== src/Cap/Update/Parent.antt =====
-- What `derive_update_cap` leaves of the parent, field by field.
use separation_kernel.Prelude.{◌+◌, ◌<◌, ◌≡◌, some, arith}
use separation_kernel.Cap.Base.{Cap, get_type, IsWord}
use separation_kernel.Cap.CapType
use separation_kernel.Cap.Memory
use separation_kernel.Cap.Memory.Accessors as MemoryAccessors
use separation_kernel.Cap.Time
use separation_kernel.Cap.Time.Accessors as TimeAccessors
use separation_kernel.Cap.Channels
use separation_kernel.Cap.Channels.Accessors as ChannelsAccessors
use separation_kernel.Cap.Receiver
use separation_kernel.Cap.Server
use separation_kernel.Cap.Supervisor
use separation_kernel.Cap.Supervisor.Accessors as SupervisorAccessors
use separation_kernel.Cap.Update.{derive_update_cap}

module _ (p c p' : Cap) (w : IsWord p) (e : derive_update_cap p c ≡ some p') where
  pub memory_memory_parent :
      get_type p ≡ CapType.memory
      → get_type c ≡ CapType.memory
      → (Memory.fields p' ≡ record (Memory.fields p) { free = Memory.get_end c })
        × (get_type p' ≡ get_type p)
  unfolding derive_update_cap Memory.fields
  memory_memory_parent tp tc =
      let lt = MemoryAccessors.fields-lt c in
      let set = MemoryAccessors.fields-set_free p (Memory.get_end c) w (omega arith) in ground arith

  pub memory_pmp_parent :
      get_type p ≡ CapType.memory
      → get_type c ≡ CapType.pmp
      → (Memory.fields p' ≡ record (Memory.fields p) { pmp = 1 }) × (get_type p' ≡ get_type p)
  unfolding derive_update_cap Memory.fields
  memory_pmp_parent tp tc =
      let set = MemoryAccessors.fields-set_pmp p 1 w (omega arith) in ground arith

  pub time_parent :
      get_type p ≡ CapType.time
      → (Time.fields p' ≡ record (Time.fields p) { free = Time.get_end c })
        × (get_type p' ≡ get_type p)
  unfolding derive_update_cap Time.fields
  time_parent tp =
      let lt = TimeAccessors.fields-lt c in
      let set = TimeAccessors.fields-set_free p (Time.get_end c) w (omega arith) in ground arith

  pub channels_channels_parent :
      get_type p ≡ CapType.channels
      → get_type c ≡ CapType.channels
      → (Channels.fields p' ≡ record (Channels.fields p) { free = Channels.get_end c })
        × (get_type p' ≡ get_type p)
  unfolding derive_update_cap Channels.fields
  channels_channels_parent tp tc =
      let lt = ChannelsAccessors.fields-lt c in
      let set = ChannelsAccessors.fields-set_free p (Channels.get_end c) w (omega arith) in
      ground arith

  pub channels_receiver_parent :
      get_type p ≡ CapType.channels
      → get_type c ≡ CapType.receiver
      → Receiver.get_channel c < Channels.get_end p
      → (Channels.fields p' ≡ record (Channels.fields p) { free = Receiver.get_channel c + 1 })
        × (get_type p' ≡ get_type p)
  unfolding derive_update_cap Channels.fields
  channels_receiver_parent tp tc h =
      let lt = ChannelsAccessors.fields-lt p in
      let set = ChannelsAccessors.fields-set_free p (Receiver.get_channel c + 1) w (omega arith) in
      ground arith

  pub channels_server_parent :
      get_type p ≡ CapType.channels
      → get_type c ≡ CapType.server
      → Server.get_channel c < Channels.get_end p
      → (Channels.fields p' ≡ record (Channels.fields p) { free = Server.get_channel c + 1 })
        × (get_type p' ≡ get_type p)
  unfolding derive_update_cap Channels.fields
  channels_server_parent tp tc h =
      let lt = ChannelsAccessors.fields-lt p in
      let set = ChannelsAccessors.fields-set_free p (Server.get_channel c + 1) w (omega arith) in
      ground arith

  pub receiver_parent : get_type p ≡ CapType.receiver → p' ≡ p
  unfolding derive_update_cap
  receiver_parent tp = ground arith

  pub server_parent : get_type p ≡ CapType.server → p' ≡ p
  unfolding derive_update_cap
  server_parent tp = ground arith

  pub supervisor_parent :
      get_type p ≡ CapType.supervisor
      → (Supervisor.fields p' ≡ record (Supervisor.fields p) { free = Supervisor.get_end c })
        × (get_type p' ≡ get_type p)
  unfolding derive_update_cap Supervisor.fields
  supervisor_parent tp =
      let lt = SupervisorAccessors.fields-lt c in
      let set = SupervisorAccessors.fields-set_free p (Supervisor.get_end c) w (omega arith) in
      ground arith
