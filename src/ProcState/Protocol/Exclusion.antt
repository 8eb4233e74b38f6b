-- ===== src/ProcState/Protocol/Exclusion.antt =====
-- At most one hart, supervisor or sender holds a process.
use separation_kernel.Prelude.{◌+◌, ◌≤◌, ◌<◌, ◌≡◌, refl, arith}
use separation_kernel.ProcState.Code
use separation_kernel.ProcState.View.{suspended, waiting, receiving, receiving_then_suspend}
use separation_kernel.ProcState.Protocol.{
  Board, Step, run, yield, wait, hold, drop, wake, mark, halt, stop, send, deliver, Reach, start,
  later,
}
use separation_kernel.ProcState.Protocol.Phases.{
  at, stopping, IsPhase, run-IsPhase, yield-IsPhase, wait-IsPhase, hold-IsPhase, drop-IsPhase,
  wake-IsPhase, mark-IsPhase, halt-IsPhase, stop-IsPhase, send-IsPhase, deliver-IsPhase,
}

-- A step from the board of a phase leads to the board of a phase.
Step-IsPhase : {s t : Board} → Step s t → IsPhase s → IsPhase t
Step-IsPhase (run {w} h) (p, f, e) = rw e (run-IsPhase w p f (rw e at h))
Step-IsPhase (yield i) (p, f, e) = rw e (yield-IsPhase p (rw e at i))
Step-IsPhase (wait {w} {n} {b} i l h) (p, f, e) =
    rw e (wait-IsPhase w p n b f (rw e at i) l (rw e at h))
Step-IsPhase (hold {w} h) (p, f, e) = rw e (hold-IsPhase w p f (rw e at h))
Step-IsPhase (drop {w} i h) (p, f, e) = rw e (drop-IsPhase w p f (rw e at i) (rw e at h))
Step-IsPhase (wake i) (p, f, e) = rw e (wake-IsPhase p (rw e at i))
Step-IsPhase (mark h) (p, f, e) = rw e (mark-IsPhase p f (rw e at h))
Step-IsPhase (halt h) (p, f, e) = rw e (halt-IsPhase p f (rw e at h))
Step-IsPhase (stop i) (p, f, e) = rw e (stop-IsPhase p (rw e at i))
Step-IsPhase (send {w} {n} l h) (p, f, e) = rw e (send-IsPhase w p n f l (rw e at h))
Step-IsPhase (deliver i) (p, f, e) = rw e (deliver-IsPhase p (rw e at i))

Reach-IsPhase : {s : Board} → Reach s → IsPhase s
Reach-IsPhase start = (at suspended, tt, refl)
Reach-IsPhase (later r st) = Step-IsPhase st (Reach-IsPhase r)

-- What the word and the counts of a board have to do with one another.
pub record IsExclusive (s : Board) : Type 0 where
  pub one : s.harts + s.supervisors + s.stoppers + s.senders ≤ 1
  pub asserted : 0 < s.supervisors → s.word ≡ Code.suspended_busy

IsPhase-IsExclusive : {s : Board} → IsPhase s → IsExclusive s
IsPhase-IsExclusive (at (waiting n), f, e) = ground arith
IsPhase-IsExclusive (at (receiving n), f, e) = ground arith
IsPhase-IsExclusive (at (receiving_then_suspend n), f, e) = ground arith
IsPhase-IsExclusive (stopping n, f, e) = ground arith
IsPhase-IsExclusive (p, f, e) = ground arith

-- However harts, supervisors and senders interleave their accesses of the state word, at most one
-- of them holds the process, and the assertion of `proc_supervisor_release` holds for a
-- supervisor. The test and the store of `proc_release` are one step, and a hart that starts to wait
-- is taken to come to them before anybody else changes the word.
pub Reach-IsExclusive : {s : Board} → Reach s → IsExclusive s
Reach-IsExclusive r = IsPhase-IsExclusive (Reach-IsPhase r)
