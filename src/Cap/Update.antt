-- ===== src/Cap/Update.antt =====
-- src/syscall.c: what becomes of a capability when one is derived from it, and when it is revoked.
pub mod Authority
pub mod Children
pub mod Parent
pub mod Revoke
pub mod Derive
pub mod Uses
use separation_kernel.Prelude.Words.{◌&&&◌}
use separation_kernel.Prelude.{ℕ, ◌+◌, Option, none, some, ◌==◌, if◌then◌else◌}
use separation_kernel.Cap.Base.{Cap, get_type, is_type}
use separation_kernel.Cap.CapType
use separation_kernel.Cap.Memory
use separation_kernel.Cap.Time
use separation_kernel.Cap.Channels
use separation_kernel.Cap.Receiver
use separation_kernel.Cap.Server
use separation_kernel.Cap.Supervisor

-- The assertions of a setter of the kernel's `gen/cap.h`, as scripts/cap_gen.py puts them, and the
-- capability that it makes: the type, and the width of the value by its mask.
abbrev pub setter : (cap : Cap) (kind mask value : ℕ) → (set : Cap) → Option Cap
setter cap kind mask value set =
    if is_type cap kind then (if value &&& mask == value then some set else none) else none

-- The assertion of a getter, and what goes on with the value.
abbrev pub getter : (cap : Cap) (kind : ℕ) → Option Cap → Option Cap
getter cap kind set = if is_type cap kind then set else none

-- What becomes of a capability if the assertions hold. For channels the source calls the accessors of
-- time slices.
unfoldable pub revoked : Cap → Cap
unfolding get_type
revoked cap =
    if get_type cap == CapType.memory
    then Memory.set_pmp (Memory.set_free cap (Memory.get_begin cap)) 0
    else if get_type cap == CapType.time
    then Time.set_free cap (Time.get_begin cap)
    else if get_type cap == CapType.channels
    then Time.set_free cap (Time.get_begin cap)
    else if get_type cap == CapType.supervisor
    then Supervisor.set_free cap (Supervisor.get_begin cap)
    else cap

-- `none` is a failed `kassert`.
unfoldable pub revoke_update_cap : Cap → Option Cap
unfolding get_type is_type
revoke_update_cap cap =
    if get_type cap == CapType.memory
    then (let freed = Memory.set_free cap (Memory.get_begin cap) in
        getter cap CapType.memory
          (elim (setter cap CapType.memory 0xffffffff (Memory.get_begin cap) freed) [
            | none ↦ none
            | some c ↦ setter c CapType.memory 0xff 0 (Memory.set_pmp c 0)
          ]))
    else if get_type cap == CapType.time
    then getter cap CapType.time (
        setter cap CapType.time 0xffff (Time.get_begin cap)
          (Time.set_free cap (Time.get_begin cap)))
    else if get_type cap == CapType.channels
    then getter cap CapType.time (
        setter cap CapType.time 0xffff (Time.get_begin cap)
          (Time.set_free cap (Time.get_begin cap)))
    else if get_type cap == CapType.supervisor
    then getter cap CapType.supervisor (
        setter cap CapType.supervisor 0xff (Supervisor.get_begin cap)
          (Supervisor.set_free cap (Supervisor.get_begin cap)))
    else some cap

-- `none` is a failed `kassert`.
unfoldable pub derive_update_cap : Cap → Cap → Option Cap
unfolding get_type is_type
derive_update_cap src_cap new_cap =
    if get_type src_cap == CapType.memory
    then if is_type new_cap CapType.memory
      then getter new_cap CapType.memory (
          setter src_cap CapType.memory 0xffffffff (Memory.get_end new_cap)
            (Memory.set_free src_cap (Memory.get_end new_cap)))
      else setter src_cap CapType.memory 0xff 1 (Memory.set_pmp src_cap 1)
    else if get_type src_cap == CapType.time
    then getter new_cap CapType.time (
        setter src_cap CapType.time 0xffff (Time.get_end new_cap)
          (Time.set_free src_cap (Time.get_end new_cap)))
    else if get_type src_cap == CapType.channels
    then if is_type new_cap CapType.channels
      then getter new_cap CapType.channels (
          setter src_cap CapType.channels 0xffff (Channels.get_end new_cap)
            (Channels.set_free src_cap (Channels.get_end new_cap)))
      else if is_type new_cap CapType.receiver
      then getter new_cap CapType.receiver (
          setter src_cap CapType.channels 0xffff (Receiver.get_channel new_cap + 1)
            (Channels.set_free src_cap (Receiver.get_channel new_cap + 1)))
      else if is_type new_cap CapType.server
      then getter new_cap CapType.server (
          setter src_cap CapType.channels 0xffff (Server.get_channel new_cap + 1)
            (Channels.set_free src_cap (Server.get_channel new_cap + 1)))
      else none
    else if get_type src_cap == CapType.receiver
    then some src_cap
    else if get_type src_cap == CapType.server
    then some src_cap
    else if get_type src_cap == CapType.supervisor
    then getter new_cap CapType.supervisor (
        setter src_cap CapType.supervisor 0xff (Supervisor.get_end new_cap)
          (Supervisor.set_free src_cap (Supervisor.get_end new_cap)))
    else none
