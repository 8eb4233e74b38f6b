-- ===== src/Tests/Locks.antt =====
-- Hart 1 has the lock, and hart 2 waits for it.
use separation_kernel.Prelude.{ℕ, ◌≡◌, ◌⊎◌, List, refl, arith}
use separation_kernel.Lock.{
  idle, spinning, inside, System, set_hart, init_lock, take_ticket, lock_release, takes, enters,
  releases, Reach, unused, step,
}
use separation_kernel.Lock.Queue.{IsQueue, Change, Reach-IsQueue, Step-Changes}
use separation_kernel.Lock.Fifo.{Reach-exclusive, Reach-progress}

abbrev start : System
start = record { lock = init_lock; harts = λ h. idle }

abbrev taken : System
taken = record { lock = (take_ticket start.lock).0; harts = set_hart start 1 (spinning 0) }

abbrev entered : System
entered = record taken { harts = set_hart taken 1 (inside 0) }

abbrev contended : System
contended = record { lock = (take_ticket entered.lock).0; harts = set_hart entered 2 (spinning 1) }

contended-Reach : Reach contended
unfolding take_ticket
contended-Reach =
    step (step (step unused (takes 1 (omega arith) refl)) (enters 1 0 refl refl))
      (takes 2 (omega arith) refl)

abbrev first_hart : ℕ
first_hart = 1

Reach-exclusive_example : first_hart ≡ 1
Reach-exclusive_example = Reach-exclusive contended 1 1 0 0 contended-Reach refl refl

Reach-progress_example :
    (h : ℕ) × ((contended.harts h ≡ inside contended.lock.now_serving)
      ⊎ (contended.harts h ≡ spinning contended.lock.now_serving))
Reach-progress_example = Reach-progress contended 2 1 contended-Reach refl

abbrev released : System
released = record { lock = lock_release contended.lock; harts = set_hart contended 1 idle }

abbrev waiting : (q : List ℕ) × IsQueue contended q
waiting = Reach-IsQueue contended-Reach

Step-Changes_example : (q : List ℕ) × IsQueue released q × Change waiting.0 q
Step-Changes_example = Step-Changes contended released waiting.0 waiting.1 (releases 1 0 refl)
