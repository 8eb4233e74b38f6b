-- ===== src/Boot/RootCaps.antt =====
-- The first capabilities of the root process are well-formed.
use separation_kernel.Prelude.{ℕ, ◌≤◌, ◌<◌, ◌^◌, arith}
use separation_kernel.Config.{n_proc, n_quantum, n_channels, min_hartid, max_hartid}
use separation_kernel.Cap.Pmp
use separation_kernel.Cap.Time
use separation_kernel.Cap.Channels
use separation_kernel.Cap.Supervisor
use separation_kernel.Cap.Valid.Defs.{IsValid}

pub pmp-IsValid : (addr rwx : ℕ) → addr < 2 ^ 32 → rwx < 2 ^ 8 → IsValid (Pmp.mk addr rwx)
pmp-IsValid addr rwx h0 h1 =
    let (_, kind, word) = Pmp.Accessors.fields-mk addr rwx h0 h1 in
    record {
      word = word;
      memory = λ e. absurd (ground (arith, kind));
      hart = λ e. absurd (ground (arith, kind));
      time = λ e. absurd (ground (arith, kind));
      channels = λ e. absurd (ground (arith, kind));
      receiver = λ e. absurd (ground (arith, kind));
      sender = λ e. absurd (ground (arith, kind));
      server = λ e. absurd (ground (arith, kind));
      client = λ e. absurd (ground (arith, kind));
      supervisor = λ e. absurd (ground (arith, kind));
    }

pub time-IsValid :
    (hartid : ℕ)
    → min_hartid ≤ hartid
    → hartid ≤ max_hartid
    → IsValid (Time.mk hartid 0 n_quantum 0)
unfolding Time.fields
time-IsValid hartid lo hi =
    let (reads, kind, word) =
      Time.Accessors.fields-mk hartid 0 n_quantum 0 (omega arith) (omega arith) (omega arith)
        (omega arith) in
    record {
      word = word;
      memory = λ e. absurd (ground (arith, kind));
      hart = λ e. ground (arith, reads);
      time = λ e. ground (arith, reads);
      channels = λ e. absurd (ground (arith, kind));
      receiver = λ e. absurd (ground (arith, kind));
      sender = λ e. absurd (ground (arith, kind));
      server = λ e. absurd (ground (arith, kind));
      client = λ e. absurd (ground (arith, kind));
      supervisor = λ e. absurd (ground (arith, kind));
    }

pub channels-IsValid : IsValid (Channels.mk 0 n_channels 0)
unfolding Channels.fields
channels-IsValid =
    let (reads, kind, word) =
      Channels.Accessors.fields-mk 0 n_channels 0 (omega arith) (omega arith) (omega arith) in
    record {
      word = word;
      memory = λ e. absurd (ground (arith, kind));
      hart = λ e. absurd (ground (arith, kind));
      time = λ e. absurd (ground (arith, kind));
      channels = λ e. ground (arith, reads);
      receiver = λ e. absurd (ground (arith, kind));
      sender = λ e. absurd (ground (arith, kind));
      server = λ e. absurd (ground (arith, kind));
      client = λ e. absurd (ground (arith, kind));
      supervisor = λ e. absurd (ground (arith, kind));
    }

pub supervisor-IsValid : IsValid (Supervisor.mk 0 n_proc 0)
unfolding Supervisor.fields
supervisor-IsValid =
    let (reads, kind, word) =
      Supervisor.Accessors.fields-mk 0 n_proc 0 (omega arith) (omega arith) (omega arith) in
    record {
      word = word;
      memory = λ e. absurd (ground (arith, kind));
      hart = λ e. absurd (ground (arith, kind));
      time = λ e. absurd (ground (arith, kind));
      channels = λ e. absurd (ground (arith, kind));
      receiver = λ e. absurd (ground (arith, kind));
      sender = λ e. absurd (ground (arith, kind));
      server = λ e. absurd (ground (arith, kind));
      client = λ e. absurd (ground (arith, kind));
      supervisor = λ e. ground (arith, reads);
    }
