-- ===== src/Cap/Valid/Setters.antt =====
-- Setters keep a capability well-formed.
use separation_kernel.Prelude.{ℕ, ◌≤◌, ◌<◌, ◌^◌, ◌≡◌, arith}
use separation_kernel.Cap.Base.{Cap, get_type}
use separation_kernel.Cap.CapType
use separation_kernel.Cap.Memory
use separation_kernel.Cap.Memory.Accessors as MemoryAccessors
use separation_kernel.Cap.Time
use separation_kernel.Cap.Time.Accessors as TimeAccessors
use separation_kernel.Cap.Channels
use separation_kernel.Cap.Channels.Accessors as ChannelsAccessors
use separation_kernel.Cap.Supervisor
use separation_kernel.Cap.Supervisor.Accessors as SupervisorAccessors
use separation_kernel.Cap.Valid.Defs.{IsValid}

module _ (c : Cap) (valid : IsValid c) where
  pub memory_free-IsValid :
      (v : ℕ)
      → get_type c ≡ CapType.memory
      → Memory.get_begin c ≤ v
      → v ≤ Memory.get_end c
      → IsValid (Memory.set_free c v)
  unfolding Memory.fields
  memory_free-IsValid v t lo hi =
      let lt = MemoryAccessors.fields-lt c in
      let set = MemoryAccessors.fields-set_free c v valid.word (omega arith) in ground arith

  pub time_free-IsValid :
      (v : ℕ)
      → get_type c ≡ CapType.time
      → Time.get_begin c ≤ v
      → v ≤ Time.get_end c
      → IsValid (Time.set_free c v)
  unfolding Time.fields
  time_free-IsValid v t lo hi =
      let lt = TimeAccessors.fields-lt c in
      let set = TimeAccessors.fields-set_free c v valid.word (omega arith) in ground arith

  pub channels_free-IsValid :
      (v : ℕ)
      → get_type c ≡ CapType.channels
      → Channels.get_begin c ≤ v
      → v ≤ Channels.get_end c
      → IsValid (Channels.set_free c v)
  unfolding Channels.fields
  channels_free-IsValid v t lo hi =
      let lt = ChannelsAccessors.fields-lt c in
      let set = ChannelsAccessors.fields-set_free c v valid.word (omega arith) in ground arith

  pub supervisor_free-IsValid :
      (v : ℕ)
      → get_type c ≡ CapType.supervisor
      → Supervisor.get_begin c ≤ v
      → v ≤ Supervisor.get_end c
      → IsValid (Supervisor.set_free c v)
  unfolding Supervisor.fields
  supervisor_free-IsValid v t lo hi =
      let lt = SupervisorAccessors.fields-lt c in
      let set = SupervisorAccessors.fields-set_free c v valid.word (omega arith) in ground arith

  pub memory_pmp-IsValid :
      (v : ℕ) → get_type c ≡ CapType.memory → v < 2 ^ 8 → IsValid (Memory.set_pmp c v)
  unfolding Memory.fields
  memory_pmp-IsValid v t h =
      let set = MemoryAccessors.fields-set_pmp c v valid.word h in ground arith
