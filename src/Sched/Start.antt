-- ===== src/Sched/Start.antt =====
-- src/sched.c: `sched_start` and `wait_and_set_timeout`. The readings of the timer are given as a
-- list, one for each round of the loop, as no memory protection is configured the PMP registers are
-- left alone, and what is stored into the timer register is part of the result.
pub mod Bounds
pub mod Sound
use separation_kernel.Prelude.{
  ℕ, ◌+◌, ◌-◌, ◌*◌, ◌/◌, ◌%◌, ◌^◌, Bool, true, false, not, Option, none, some, List, [], ◌∷◌, ltb,
  leb, ◌==◌, if◌then◌else◌,
}
use separation_kernel.Config.{n_proc, ticks, scheduler_ticks}
use separation_kernel.Proc.Reg
use separation_kernel.ProcState
use separation_kernel.Sched
use separation_kernel.Sched.{Entry}
use separation_kernel.Kernel.{Kernel, M, pure, ◌>>=◌, ◌>>◌, get, put, assert, from_option, set_proc}

-- What is stored into the hart's timer register before the process runs, and when it starts.
pub record Timer : Type 0 where
  pub start : ℕ
  pub end : ℕ

-- `a - b` of 64-bit words.
abbrev pub sub64 : ℕ → ℕ → ℕ
sub64 a b = (a + (2 ^ 64 - b)) % 2 ^ 64

unfoldable pub wait_and_set_timeout : (time length timeout : ℕ) → Timer
wait_and_set_timeout time length timeout =
    let start_time = time * ticks % 2 ^ 64 in
    let end_time = sub64 ((start_time + length * ticks) % 2 ^ 64) scheduler_ticks in
    if ltb start_time timeout
    then record { start = timeout; end = end_time }
    else record { start = start_time; end = end_time }

-- The process of an entry is acquired, if it has not asked to sleep for longer than the slice.
unfoldable pub try_entry : (time : ℕ) → Entry → M (Option Timer)
unfolding wait_and_set_timeout set_proc
try_entry time entry = do
  assert (ltb entry.pid n_proc)
  k ← get
  let timeout = (k.procs entry.pid).regs Reg.timeout
  let end_time = sub64 ((time + entry.length) * ticks % 2 ^ 64) scheduler_ticks
  let (state, acquired) = ProcState.acquire (k.procs entry.pid).state
  if leb end_time timeout then pure none else if not acquired then pure none else (do
    put (record (set_proc k entry.pid (record (k.procs entry.pid) { state = state })) {
      current = entry.pid;
    })
    pure (some (wait_and_set_timeout time entry.length timeout)))

unfoldable pub try_start : (hartid time : ℕ) → M (Option Timer)
unfolding try_entry
try_start hartid time = do
  k ← get
  found ← from_option (Sched.get_proc k.schedule hartid time)
  elim found [ none ↦ pure none | some entry ↦ try_entry time entry ]

-- `none` if the loop still runs after these readings of the timer.
unfoldable pub sched_start : (readings : List ℕ) → (hartid : ℕ) → M (Option Timer)
unfolding try_start
sched_start [] hartid = pure none
sched_start (now ∷ readings) hartid = do
  tried ← try_start hartid (now / ticks + 1)
  elim tried [ none ↦ sched_start readings hartid | some timer ↦ pure (some timer) ]
