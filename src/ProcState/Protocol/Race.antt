-- ===== src/ProcState/Protocol/Race.antt =====
-- The steps with a gap between `proc_receiver_wait` and the `proc_release` of `sched_yield`.
use separation_kernel.Prelude.{ℕ, ◌+◌, ◌-◌, ◌^◌, ◌<◌, ◌≡◌, refl, true, arith}
use mathlib.Core.Path.{subst}
use separation_kernel.ProcState.Code
use separation_kernel.ProcState
use separation_kernel.ProcState.View.{
  encode, ready, running, waiting, receiving, receiver_wait-encode, sender_acquire-encode,
  sender_release-encode,
}
use separation_kernel.ProcState.Protocol.{
  Board, suspended_board, Step, run, hold, wake, send, deliver,
}

-- `leaving` counts the harts that wait for a message and have not come to `proc_release`.
pub record Gap : Type 0 where
  pub board : Board
  pub leaving : ℕ

pub data GapStep (s : Gap) : Gap → Type 0 where
  step : {b : Board} → Step s.board b → GapStep s (record s { board = b })
  wait :
      {w n : ℕ}
      → 0 < s.board.harts
      → n < 2 ^ 16
      → ProcState.receiver_wait s.board.word n ≡ (w, true)
      → GapStep s (record {
        board = record (s.board) { word = w; harts = s.board.harts - 1 };
        leaving = s.leaving + 1;
      })
  leave :
      0 < s.leaving
      → GapStep s (record {
        board = record (s.board) { word = ProcState.release s.board.word };
        leaving = s.leaving - 1;
      })

pub data GapReach : Gap → Type 0 where
  start : GapReach (record { board = suspended_board; leaving = 0 })
  later : {s t : Gap} → GapReach s → GapStep s t → GapReach t

abbrev at : (w harts supervisors senders leaving : ℕ) → Gap
at w harts supervisors senders leaving = record {
  board = record {
    word = w;
    harts = harts;
    supervisors = supervisors;
    stoppers = 0;
    senders = senders;
  };
  leaving = leaving;
}

-- A supervisor resumes the process, and a hart runs it.
begins : GapReach (at (encode running) 1 0 0 0)
unfolding ProcState.supervisor_acquire ProcState.acquire
begins =
    later
      (later (later start (step (hold {w = Code.suspended_busy} refl))) (step (wake (omega arith))))
      (step (run {w = Code.running} refl))

module _ (n : ℕ) (h : n < 2 ^ 16) where
  -- The hart starts to wait at channel `n`.
  waits : GapReach (at (encode (waiting n)) 0 0 0 1)
  waits = later begins (wait {n = n} (omega arith) h (receiver_wait-encode n h running tt))

  -- A sender takes the process over to deliver a message.
  receives : GapReach (at (encode (receiving n)) 0 0 1 1)
  receives =
      later waits (step (send {n = n} h (ground (arith, sender_acquire-encode n h (waiting n) h))))

  -- The message is delivered, and another hart runs the process.
  runs : GapReach (at (encode running) 1 0 0 1)
  unfolding ProcState.acquire
  runs =
      let delivered : GapReach (at (encode ready) 0 0 0 1) =
        subst (λ (w : ℕ). GapReach (at w 0 0 0 1)) (sender_release-encode n).0
          (later receives (step (deliver (omega arith)))) in
      later delivered (step (run {w = Code.running} refl))

-- With a gap before the `proc_release` of a hart that waits at any channel, a state is reachable in
-- which two harts run the process: a sender and a second hart come in between, and the late
-- release marks the process as ready while it runs.
pub wait_gap : (n : ℕ) → n < 2 ^ 16 → (s : Gap) × GapReach s × (s.board.harts ≡ 2)
unfolding ProcState.release ProcState.acquire
wait_gap n h = (
  at (encode running) 2 0 0 0,
  later (later (runs n h) (leave (omega arith))) (step (run {w = Code.running} refl)),
  refl,
)
