-- ===== src/Sched/Start/Bounds.antt =====
-- src/sched.c: the timer of a process that is started.
use Prim.Native.Nat.{max}
use separation_kernel.Prelude.{ℕ, ◌+◌, ◌*◌, ◌%◌, ◌^◌, ◌≤◌, ◌<◌, ◌≡◌, ◌↔◌, arith}
use separation_kernel.Config.{ticks, scheduler_ticks}
use separation_kernel.Sched.Start.{wait_and_set_timeout, sub64}

-- For a time from quantum 3 on that is far from the end of 64-bit words, a slice of less than 256
-- quanta and a sleep that `sched_start` lets through, the process runs from the start of its slice,
-- or from the end of its sleep if that is later, to the end of the slice less the scheduler's own
-- time; there is any time between the two exactly if the slice is of three quanta or more.
pub wait_and_set_timeout-bounds :
    (time length timeout : ℕ)
    → 3 ≤ time
    → time < 2 ^ 50
    → length < 2 ^ 8
    → timeout < sub64 ((time + length) * ticks % 2 ^ 64) scheduler_ticks
    → ((wait_and_set_timeout time length timeout).start ≡ max (time * ticks) timeout)
      × ((wait_and_set_timeout time length timeout).end + scheduler_ticks ≡ (time + length) * ticks)
      × (((wait_and_set_timeout time length timeout).start
            < (wait_and_set_timeout time length timeout).end)
          ↔ (3 ≤ length))
unfolding wait_and_set_timeout
wait_and_set_timeout-bounds time length timeout lo hi short awake =
    (ground arith, ground arith, (λ h. ground arith, λ h. ground arith))
