-- ===== src/Cap/Update/Revoke.antt =====
-- Revoking a capability takes back all of its range.
use separation_kernel.Prelude.{
  ℕ, ◌≢◌, some, none, ◌≤◌, ◌<◌, ◌≡◌, refl, ◌∙◌, inl, inr, arith, Bool-cases, ◌==◌, ==→eq,
}
use separation_kernel.Prelude.Bits.{bit_and_mask_below}
use separation_kernel.Cap.Base.{Cap, get_type}
use separation_kernel.Cap.CapType
use separation_kernel.Cap.Memory
use separation_kernel.Cap.Memory.Accessors as MemoryAccessors
use separation_kernel.Cap.Time
use separation_kernel.Cap.Time.Accessors as TimeAccessors
use separation_kernel.Cap.Channels
use separation_kernel.Cap.Channels.Accessors as ChannelsAccessors
use separation_kernel.Cap.Supervisor
use separation_kernel.Cap.Supervisor.Accessors as SupervisorAccessors
use separation_kernel.Cap.Update.{revoked, revoke_update_cap}
use separation_kernel.Cap.Update.Authority.{Right, block, slot, channel, process, Owns}
use separation_kernel.Cap.Valid.Defs.{IsValid}
use separation_kernel.Cap.Valid.Setters

-- The accessors of time slices lay `free` out as those of channels do.
time_free-channels_free : (c : Cap) (v : ℕ) → Time.set_free c v ≡ Channels.set_free c v
unfolding Time.set_free Channels.set_free
time_free-channels_free c v = refl

time_begin-channels_begin : (c : Cap) → Time.get_begin c ≡ Channels.get_begin c
unfolding Time.get_begin Channels.get_begin
time_begin-channels_begin c = refl

-- A right in the range of a capability, handed out or not.
abbrev pub InRange : Cap → Right → Type 0
InRange c (block b) =
    (get_type c ≡ CapType.memory) × (Memory.get_begin c ≤ b) × (b < Memory.get_end c)
InRange c (slot h q) =
    (get_type c ≡ CapType.time)
    × (Time.get_hartid c ≡ h)
    × (Time.get_begin c ≤ q)
    × (q < Time.get_end c)
InRange c (channel n) =
    (get_type c ≡ CapType.channels) × (Channels.get_begin c ≤ n) × (n < Channels.get_end c)
InRange c (process i) =
    (get_type c ≡ CapType.supervisor) × (Supervisor.get_begin c ≤ i) × (i < Supervisor.get_end c)

module _ (c : Cap) (valid : IsValid c) where
  revoke-Owns_block : (b : ℕ) → InRange c (block b) → Owns (revoked c) (block b)
  unfolding revoked Memory.fields
  revoke-Owns_block b h =
      let lt = MemoryAccessors.fields-lt c in
      let set = MemoryAccessors.fields-set_free c (Memory.get_begin c) valid.word (omega arith) in
      let clear =
        MemoryAccessors.fields-set_pmp (Memory.set_free c (Memory.get_begin c)) 0 set.2
          (omega arith) in
      ground arith

  revoke-Owns_slot : (a q : ℕ) → InRange c (slot a q) → Owns (revoked c) (slot a q)
  unfolding revoked Time.fields
  revoke-Owns_slot a q h =
      let lt = TimeAccessors.fields-lt c in
      let set = TimeAccessors.fields-set_free c (Time.get_begin c) valid.word (omega arith) in
      ground arith

  revoke-Owns_channel : (n : ℕ) → InRange c (channel n) → Owns (revoked c) (channel n)
  unfolding revoked Channels.fields
  revoke-Owns_channel n h =
      let lt = ChannelsAccessors.fields-lt c in
      let set =
        ChannelsAccessors.fields-set_free c (Channels.get_begin c) valid.word (omega arith) in
      ground (arith, time_free-channels_free c (Time.get_begin c), time_begin-channels_begin c)

  revoke-Owns_process : (i : ℕ) → InRange c (process i) → Owns (revoked c) (process i)
  unfolding revoked Supervisor.fields
  revoke-Owns_process i h =
      let lt = SupervisorAccessors.fields-lt c in
      let set =
        SupervisorAccessors.fields-set_free c (Supervisor.get_begin c) valid.word (omega arith) in
      ground arith

-- Once revoked a well-formed capability owns every memory block, time slice, channel
-- and process of its range again.
pub revoke-Owns : (c : Cap) → IsValid c → (r : Right) → InRange c r → Owns (revoked c) r
revoke-Owns c valid (block b) h = revoke-Owns_block c valid b h
revoke-Owns c valid (slot a q) h = revoke-Owns_slot c valid a q h
revoke-Owns c valid (channel n) h = revoke-Owns_channel c valid n h
revoke-Owns c valid (process i) h = revoke-Owns_process c valid i h

module _ (c : Cap) (valid : IsValid c) where
  revoke_memory-IsValid :
      get_type c ≡ CapType.memory
      → IsValid (Memory.set_pmp (Memory.set_free c (Memory.get_begin c)) 0)
  unfolding Memory.fields
  revoke_memory-IsValid t =
      let range = valid.memory t in
      let lt = MemoryAccessors.fields-lt c in
      let set = MemoryAccessors.fields-set_free c (Memory.get_begin c) valid.word (omega arith) in
      Setters.memory_pmp-IsValid _
        (Setters.memory_free-IsValid c valid (Memory.get_begin c) t (omega arith) (omega arith)) 0
        (set.1 ∙ t) (omega arith)

  revoke_channels-IsValid :
      get_type c ≡ CapType.channels → IsValid (Time.set_free c (Time.get_begin c))
  revoke_channels-IsValid t =
      let range = valid.channels t in
      rw (time_free-channels_free c (Time.get_begin c), time_begin-channels_begin c)
        (Setters.channels_free-IsValid c valid (Channels.get_begin c) t (omega arith) (omega arith))

-- A revocation keeps capabilities well-formed.
pub revoke-IsValid : (c : Cap) → IsValid c → IsValid (revoked c)
unfolding revoked
revoke-IsValid c valid = elim (Bool-cases (get_type c == CapType.memory)) [
  | inl m ↦ rw m (revoke_memory-IsValid c valid (==→eq _ _ m))
  | inr not_m ↦ rw not_m (elim (Bool-cases (get_type c == CapType.time)) [
    | inl t ↦
        let range = valid.time (==→eq _ _ t) in
        rw t (
          Setters.time_free-IsValid c valid (Time.get_begin c) (==→eq _ _ t) (omega arith)
            (omega arith))
    | inr not_t ↦ rw not_t (elim (Bool-cases (get_type c == CapType.channels)) [
      | inl h ↦ rw h (revoke_channels-IsValid c valid (==→eq _ _ h))
      | inr not_h ↦ rw not_h (elim (Bool-cases (get_type c == CapType.supervisor)) [
        | inl s ↦
            let range = valid.supervisor (==→eq _ _ s) in
            rw s (
              Setters.supervisor_free-IsValid c valid (Supervisor.get_begin c) (==→eq _ _ s)
                (omega arith) (omega arith))
        | inr not_s ↦ rw not_s valid
      ])
    ])
  ])
]

-- `revoke_update_cap` meets a failed assertion for channels, and only for them.
module _ (c : Cap) (valid : IsValid c) where
  pub revoke_update_cap-revoked :
      get_type c ≢ CapType.channels → revoke_update_cap c ≡ some (revoked c)
  unfolding revoke_update_cap revoked Memory.fields Time.fields Supervisor.fields
  revoke_update_cap-revoked other =
      let memory = MemoryAccessors.fields-lt c in
      let set = MemoryAccessors.fields-set_free c (Memory.get_begin c) valid.word (omega arith) in
      let time = TimeAccessors.fields-lt c in
      let supervisor = SupervisorAccessors.fields-lt c in
      let wide = bit_and_mask_below 32 (Memory.get_begin c) (omega arith) in
      let quantum = bit_and_mask_below 16 (Time.get_begin c) (omega arith) in
      let process = bit_and_mask_below 8 (Supervisor.get_begin c) (omega arith) in
      elim (Bool-cases (get_type c == CapType.memory)) [
        | inl m ↦ rw m (ground (arith, wide, bit_and_mask_below 8 0, set))
        | inr not_m ↦ ground (arith, quantum, process)
      ]

pub revoke_update_cap-channels :
    (c : Cap) → get_type c ≡ CapType.channels → revoke_update_cap c ≡ none
unfolding revoke_update_cap
revoke_update_cap-channels c kind = ground arith
