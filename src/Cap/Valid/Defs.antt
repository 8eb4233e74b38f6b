-- ===== src/Cap/Valid/Defs.antt =====
-- Well-formed capabilities: what indexes an array of the kernel is within it, and the part of a
-- range that is handed out lies in the range.
use separation_kernel.Prelude.{ℕ, ◌≤◌, ◌<◌, ◌≡◌}
use separation_kernel.Config.{n_proc, n_quantum, n_channels, min_hartid, max_hartid}
use separation_kernel.Cap.Base.{Cap, IsWord, get_type}
use separation_kernel.Cap.CapType
use separation_kernel.Cap.Memory
use separation_kernel.Cap.Time
use separation_kernel.Cap.Channels
use separation_kernel.Cap.Receiver
use separation_kernel.Cap.Sender
use separation_kernel.Cap.Server
use separation_kernel.Cap.Client
use separation_kernel.Cap.Supervisor

-- A range whose part below `free` is handed out.
abbrev pub IsRange : (begin free end limit : ℕ) → Type 0
IsRange begin free end limit = (begin ≤ free) × (free ≤ end) × (end ≤ limit)

pub record IsValid (c : Cap) : Type 0 where
  pub word : IsWord c
  pub memory :
      get_type c ≡ CapType.memory
      → IsRange (Memory.get_begin c) (Memory.get_free c) (Memory.get_end c) 0xffffffff
  pub hart :
      get_type c ≡ CapType.time
      → (min_hartid ≤ Time.get_hartid c) × (Time.get_hartid c ≤ max_hartid)
  pub time :
      get_type c ≡ CapType.time
      → IsRange (Time.get_begin c) (Time.get_free c) (Time.get_end c) n_quantum
  pub channels :
      get_type c ≡ CapType.channels
      → IsRange (Channels.get_begin c) (Channels.get_free c) (Channels.get_end c) n_channels
  pub receiver : get_type c ≡ CapType.receiver → Receiver.get_channel c < n_channels
  pub sender : get_type c ≡ CapType.sender → Sender.get_channel c < n_channels
  pub server : get_type c ≡ CapType.server → Server.get_channel c < n_channels
  pub client : get_type c ≡ CapType.client → Client.get_channel c < n_channels
  pub supervisor :
      get_type c ≡ CapType.supervisor
      → IsRange (Supervisor.get_begin c) (Supervisor.get_free c) (Supervisor.get_end c) n_proc
