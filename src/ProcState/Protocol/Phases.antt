-- ===== src/ProcState/Protocol/Phases.antt =====
-- The states of the board that can be reached: the state word says who holds the process.
use separation_kernel.Prelude.{ℕ, ◌+◌, ◌-◌, ◌^◌, ◌<◌, ◌≡◌, ◌≢◌, refl, Bool, true, some, arith}
use separation_kernel.Prelude.Words.{◌&&&◌, ◌|||◌}
use separation_kernel.ProcState.Code
use separation_kernel.ProcState
use separation_kernel.ProcState.View.{
  State, ready, running, suspended, running_then_suspend, suspended_busy, waiting, receiving,
  receiving_then_suspend, encode, tagged, tagged_and, tagged_or, tag, Fits,
}
use separation_kernel.ProcState.Protocol.{Board}

-- A state, or that between the two accesses of `proc_supervisor_suspend`.
pub data Phase : Type 0 where
  at : State → Phase
  stopping : ℕ → Phase

abbrev pub PhaseFits : Phase → Type 0
PhaseFits (at s) = Fits s
PhaseFits (stopping n) = n < 2 ^ 16

abbrev nobody : ℕ → Board
nobody w = record { word = w; harts = 0; supervisors = 0; stoppers = 0; senders = 0 }

-- Who holds the process in each phase.
abbrev pub board : Phase → Board
board (at ready) = nobody (encode ready)
board (at suspended) = nobody (encode suspended)
board (at (waiting n)) = nobody (encode (waiting n))
board (at running) = record (nobody (encode running)) { harts = 1 }
board (at running_then_suspend) = record (nobody (encode running_then_suspend)) { harts = 1 }
board (at suspended_busy) = record (nobody (encode suspended_busy)) { supervisors = 1 }
board (at (receiving n)) = record (nobody (encode (receiving n))) { senders = 1 }
board (at (receiving_then_suspend n)) = record (nobody (encode (receiving_then_suspend n))) {
  senders = 1;
}
board (stopping n) = record (nobody (tagged n Code.suspended_busy)) { stoppers = 1 }

abbrev pub IsPhase : Board → Type 0
IsPhase t = (p : Phase) × PhaseFits p × (t ≡ board p)

module _ (w : ℕ) where
  pub run-IsPhase :
      (p : Phase)
      → PhaseFits p
      → ProcState.acquire (board p).word ≡ (w, true)
      → IsPhase (record (board p) { word = w; harts = (board p).harts + 1 })
  unfolding ProcState.acquire
  run-IsPhase (at ready) f h = (at running, tt, ground arith)
  run-IsPhase (at running) f h = absurd (ground arith)
  run-IsPhase (at (waiting n)) f h = absurd (ground arith)
  run-IsPhase p f h = absurd (ground arith)

  pub hold-IsPhase :
      (p : Phase)
      → PhaseFits p
      → ProcState.supervisor_acquire (board p).word ≡ (w, true)
      → IsPhase (record (board p) { word = w; supervisors = (board p).supervisors + 1 })
  unfolding ProcState.supervisor_acquire
  hold-IsPhase (at suspended) f h = (at suspended_busy, tt, ground arith)
  hold-IsPhase (at (waiting n)) f h = absurd (ground arith)
  hold-IsPhase p f h = absurd (ground arith)

  pub drop-IsPhase :
      (p : Phase)
      → PhaseFits p
      → 0 < (board p).supervisors
      → ProcState.supervisor_release (board p).word ≡ some w
      → IsPhase (record (board p) { word = w; supervisors = (board p).supervisors - 1 })
  unfolding ProcState.supervisor_release
  drop-IsPhase (at suspended_busy) f i h = (at suspended, tt, ground arith)
  drop-IsPhase (at (waiting n)) f i h = absurd (omega arith)
  drop-IsPhase p f i h = absurd (omega arith)

  pub wait-IsPhase :
      (p : Phase) (n : ℕ) (b : Bool)
      → PhaseFits p
      → 0 < (board p).harts
      → n < 2 ^ 16
      → ProcState.receiver_wait (board p).word n ≡ (w, b)
      → IsPhase (record (board p) { word = ProcState.release w; harts = (board p).harts - 1 })
  unfolding ProcState.receiver_wait ProcState.release
  wait-IsPhase (at running) n b f i l h =
      (at (waiting n), l, ground (arith, tag n 2 l, tagged_and n 2 2))
  wait-IsPhase (at running_then_suspend) n b f i l h = (at suspended, tt, ground arith)
  wait-IsPhase (at (waiting m)) n b f i l h = absurd (omega arith)
  wait-IsPhase p n b f i l h = absurd (omega arith)

  pub send-IsPhase :
      (p : Phase) (n : ℕ)
      → PhaseFits p
      → n < 2 ^ 16
      → ProcState.sender_acquire (board p).word n ≡ (w, true)
      → IsPhase (record (board p) { word = w; senders = (board p).senders + 1 })
  unfolding ProcState.sender_acquire
  send-IsPhase (at (waiting m)) n f l h =
      (at (receiving n), l, ground (arith, tag n 2 l, tag n 3 l))
  send-IsPhase (at ready) n f l h = absurd (ground (arith, tag n 2 l))
  send-IsPhase p n f l h = absurd (ground (arith, tag n 2 l))

pub yield-IsPhase :
    (p : Phase)
    → 0 < (board p).harts
    → IsPhase
        (record (board p) { word = ProcState.release (board p).word; harts = (board p).harts - 1 })
unfolding ProcState.release
yield-IsPhase (at running) i = (at ready, tt, ground arith)
yield-IsPhase (at running_then_suspend) i = (at suspended, tt, ground arith)
yield-IsPhase (at (waiting m)) i = absurd (omega arith)
yield-IsPhase p i = absurd (omega arith)

pub wake-IsPhase :
    (p : Phase)
    → 0 < (board p).supervisors
    → IsPhase (record (board p) { word = Code.ready; supervisors = (board p).supervisors - 1 })
wake-IsPhase (at suspended_busy) i = (at ready, tt, ground arith)
wake-IsPhase (at (waiting m)) i = absurd (omega arith)
wake-IsPhase p i = absurd (omega arith)

pub mark-IsPhase :
    (p : Phase)
    → PhaseFits p
    → ((board p).word &&& 0x7) ≢ Code.waiting
    → IsPhase (record (board p) { word = (board p).word ||| Code.suspended })
mark-IsPhase (at ready) f h = (at suspended, tt, refl)
mark-IsPhase (at suspended) f h = (at suspended, tt, refl)
mark-IsPhase (at running) f h = (at running_then_suspend, tt, refl)
mark-IsPhase (at running_then_suspend) f h = (at running_then_suspend, tt, refl)
mark-IsPhase (at suspended_busy) f h = (at suspended_busy, tt, refl)
mark-IsPhase (at (waiting n)) f h = absurd (ground (arith, tagged_and n 2 7))
mark-IsPhase (at (receiving n)) f h =
    (at (receiving_then_suspend n), f, ground (arith, tagged_or n 3 4))
mark-IsPhase (at (receiving_then_suspend n)) f h =
    (at (receiving_then_suspend n), f, ground (arith, tagged_or n 7 4))
mark-IsPhase (stopping n) f h = (stopping n, f, ground (arith, tagged_or n 6 4))

pub halt-IsPhase :
    (p : Phase)
    → PhaseFits p
    → ((board p).word &&& 0x7) ≡ Code.waiting
    → IsPhase (record (board p) {
      word = (board p).word ||| Code.suspended;
      stoppers = (board p).stoppers + 1;
    })
halt-IsPhase (at (waiting n)) f h = (stopping n, f, ground (arith, tagged_or n 2 4))
halt-IsPhase (at (receiving n)) f h = absurd (ground (arith, tagged_and n 3 7))
halt-IsPhase (at (receiving_then_suspend n)) f h = absurd (ground (arith, tagged_and n 7 7))
halt-IsPhase (stopping n) f h = absurd (ground (arith, tagged_and n 6 7))
halt-IsPhase p f h = absurd (omega arith)

pub stop-IsPhase :
    (p : Phase)
    → 0 < (board p).stoppers
    → IsPhase (record (board p) { word = Code.suspended; stoppers = (board p).stoppers - 1 })
stop-IsPhase (stopping n) i = (at suspended, tt, ground arith)
stop-IsPhase (at (waiting m)) i = absurd (omega arith)
stop-IsPhase p i = absurd (omega arith)

pub deliver-IsPhase :
    (p : Phase)
    → 0 < (board p).senders
    → IsPhase (record (board p) {
      word = ProcState.sender_release (board p).word;
      senders = (board p).senders - 1;
    })
unfolding ProcState.sender_release
deliver-IsPhase (at (receiving n)) i = (at ready, tt, ground (arith, tagged_and n 3 4))
deliver-IsPhase (at (receiving_then_suspend n)) i =
    (at suspended, tt, ground (arith, tagged_and n 7 4))
deliver-IsPhase p i = absurd (omega arith)
