-- ===== src/ProcState/Protocol.antt =====
-- Harts, supervisors and senders that work on one process at the same time. Each step is one
-- atomic access of the state word by one of them, or a plain read and the access that follows it in
-- `proc_release` and `proc_supervisor_release`; the counts say who holds the process.
pub mod Phases
pub mod Exclusion
pub mod Race
use separation_kernel.Prelude.{ℕ, ◌+◌, ◌-◌, ◌^◌, ◌<◌, ◌≡◌, ◌≢◌, Bool, true, some}
use separation_kernel.Prelude.Words.{◌&&&◌, ◌|||◌}
use separation_kernel.ProcState.Code
use separation_kernel.ProcState

pub record Board : Type 0 where
  pub word : ℕ
  pub harts : ℕ  -- those that run the process
  pub supervisors : ℕ  -- those that read or write its registers or capabilities
  pub stoppers : ℕ  -- those inside `proc_supervisor_suspend`, before its plain store
  pub senders : ℕ  -- those that deliver a message

abbrev pub suspended_board : Board
suspended_board = record {
  word = Code.suspended;
  harts = 0;
  supervisors = 0;
  stoppers = 0;
  senders = 0;
}

-- The two halves of `proc_supervisor_resume` are `hold` and `wake`, and those of
-- `proc_supervisor_suspend` on a waiting process `halt` and `stop`. A hart that waits for a message
-- goes on to `proc_release`, in `wait` with nobody in between.
pub data Step (s : Board) : Board → Type 0 where
  run :
      {w : ℕ}
      → ProcState.acquire s.word ≡ (w, true)
      → Step s (record s { word = w; harts = s.harts + 1 })
  yield : 0 < s.harts → Step s (record s { word = ProcState.release s.word; harts = s.harts - 1 })
  wait :
      {w n : ℕ} {b : Bool}
      → 0 < s.harts
      → n < 2 ^ 16
      → ProcState.receiver_wait s.word n ≡ (w, b)
      → Step s (record s { word = ProcState.release w; harts = s.harts - 1 })
  hold :
      {w : ℕ}
      → ProcState.supervisor_acquire s.word ≡ (w, true)
      → Step s (record s { word = w; supervisors = s.supervisors + 1 })
  drop :
      {w : ℕ}
      → 0 < s.supervisors
      → ProcState.supervisor_release s.word ≡ some w
      → Step s (record s { word = w; supervisors = s.supervisors - 1 })
  wake :
      0 < s.supervisors → Step s (record s { word = Code.ready; supervisors = s.supervisors - 1 })
  mark : (s.word &&& 0x7) ≢ Code.waiting → Step s (record s { word = s.word ||| Code.suspended })
  halt :
      (s.word &&& 0x7) ≡ Code.waiting
      → Step s (record s { word = s.word ||| Code.suspended; stoppers = s.stoppers + 1 })
  stop : 0 < s.stoppers → Step s (record s { word = Code.suspended; stoppers = s.stoppers - 1 })
  send :
      {w n : ℕ}
      → n < 2 ^ 16
      → ProcState.sender_acquire s.word n ≡ (w, true)
      → Step s (record s { word = w; senders = s.senders + 1 })
  deliver :
      0 < s.senders
      → Step s (record s { word = ProcState.sender_release s.word; senders = s.senders - 1 })

pub data Reach : Board → Type 0 where
  start : Reach suspended_board
  later : {s t : Board} → Reach s → Step s t → Reach t
