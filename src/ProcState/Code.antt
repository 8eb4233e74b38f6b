-- ===== src/ProcState/Code.antt =====
-- `enum proc_state`.
use Prim.Native.Nat.{ℕ}

abbrev pub ready : ℕ
ready = 0

abbrev pub running : ℕ
running = 1

abbrev pub waiting : ℕ
waiting = 2

abbrev pub receiving : ℕ
receiving = 3

abbrev pub suspended : ℕ
suspended = 4

abbrev pub running_then_suspend : ℕ
running_then_suspend = 5

abbrev pub suspended_busy : ℕ
suspended_busy = 6

abbrev pub receiving_then_suspend : ℕ
receiving_then_suspend = 7
