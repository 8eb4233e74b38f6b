-- ===== src/Lock/Fifo.antt =====
-- inc/lock.h: one hart at a time has the lock, and there is always one that gets on.
use separation_kernel.Prelude.{
  ℕ, ◌≡◌, ◌⊎◌, inl, inr, refl, sym, ap, ◌∙◌, some, List, [], ◌∷◌, arith,
}
use separation_kernel.Lock.{Use, idle, spinning, inside, System, Reach}
use separation_kernel.Lock.Tickets.{ticket}
use separation_kernel.Lock.Queue.{IsQueue, served-first, head, Reach-IsQueue}

-- Whatever the order in which harts take tickets, look and release, and however often the counters
-- wrap around, two harts that have the lock are the same.
pub Reach-exclusive :
    (s : System) (i j t u : ℕ) → Reach s → s.harts i ≡ inside t → s.harts j ≡ inside u → i ≡ j
Reach-exclusive s i j t u reached at_i at_j =
    let (q, queue) = Reach-IsQueue reached in
    let now = queue.served i t at_i in
    let now' = queue.served j u at_j in
    let (rest, shape) = served-first q queue i (rw (at_i, now) refl) in
    let (rest', shape') = served-first q queue j (rw (at_j, now') refl) in
    ap (head i) (sym shape ∙ shape')

-- Whenever a hart spins, some hart has the lock, or some hart spins with the ticket that is served and
-- gets the lock when it looks the next time: the lock never stands still.
pub Reach-progress :
    (s : System) (i t : ℕ)
    → Reach s
    → s.harts i ≡ spinning t
    → (h : ℕ) × ((s.harts h ≡ inside s.lock.now_serving)
        ⊎ (s.harts h ≡ spinning s.lock.now_serving))
Reach-progress s i t reached waits = let (q, queue) = Reach-IsQueue reached in at_queue q queue
  where
    holds : (u : Use) (n : ℕ) → ticket u ≡ some n → (u ≡ inside n) ⊎ (u ≡ spinning n)
    holds idle n e = ground arith
    holds (spinning m) n e = inr (ground arith)
    holds (inside m) n e = inl (ground arith)

    at_queue :
        (q : List ℕ)
        → IsQueue s q
        → (h : ℕ) × ((s.harts h ≡ inside s.lock.now_serving)
            ⊎ (s.harts h ≡ spinning s.lock.now_serving))
    at_queue [] queue = let free = queue.outside i refl in absurd (ground arith)
    at_queue (h ∷ q) queue = (h, holds (s.harts h) s.lock.now_serving queue.tickets.0)
