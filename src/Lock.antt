-- ===== src/Lock.antt =====
-- inc/lock.h: the ticket lock that the schedule is updated under, and the runs of harts that take it.
-- The two counters are 32-bit words.
pub mod Counting
pub mod Fifo
pub mod Queue
pub mod Tickets
use separation_kernel.Prelude.{ℕ, ◌+◌, ◌%◌, ◌^◌, ◌≤◌, ◌≡◌, Option, none, some, ◌==◌, if◌then◌else◌}
use separation_kernel.Config.{max_hartid}

pub record Lock : Type 0 where
  pub now_serving : ℕ
  pub next_ticket : ℕ

-- `INIT_LOCK`.
abbrev pub init_lock : Lock
init_lock = record { now_serving = 0; next_ticket = 0 }

abbrev pub next32 : ℕ → ℕ
next32 n = (n + 1) % 2 ^ 32

-- The first line of `lock_acquire`: the ticket, and the counter moved on.
unfoldable pub take_ticket : Lock → Lock × ℕ
take_ticket l = (record l { next_ticket = next32 l.next_ticket }, l.next_ticket)

unfoldable pub lock_release : Lock → Lock
lock_release l = record l { now_serving = next32 l.now_serving }

-- What a hart does with the lock: nothing, the loop of `lock_acquire` with a ticket, or the work that
-- the lock protects, which it has got with a ticket.
pub data Use : Type 0 where
  idle : Use
  spinning : ℕ → Use
  inside : ℕ → Use

pub record System : Type 0 where
  pub lock : Lock
  pub harts : ℕ → Use

abbrev pub set_hart : System → (h : ℕ) → Use → ℕ → Use
set_hart s h u i = if i == h then u else s.harts i

-- One access of the lock by a hart.
pub data Step (s : System) : System → Type 0 where
  takes :
      (h : ℕ)
      → h ≤ max_hartid
      → s.harts h ≡ idle
      → Step s (record {
        lock = (take_ticket s.lock).0;
        harts = set_hart s h (spinning (take_ticket s.lock).1);
      })
  enters :
      (h ticket : ℕ)
      → s.harts h ≡ spinning ticket
      → ticket ≡ s.lock.now_serving
      → Step s (record s { harts = set_hart s h (inside ticket) })
  releases :
      (h ticket : ℕ)
      → s.harts h ≡ inside ticket
      → Step s (record { lock = lock_release s.lock; harts = set_hart s h idle })

pub data Reach : System → Type 0 where
  unused : Reach (record { lock = init_lock; harts = λ h. idle })
  step : {s s' : System} → Reach s → Step s s' → Reach s'
