-- ===== src/Sched/Init.antt =====
-- `sched_init` gives all of the major frame to process 0, and keeps the schedule well-formed.
use separation_kernel.Prelude.{
  ℕ, zero, suc, ◌+◌, ◌-◌, ◌%◌, ◌^◌, ◌≤◌, ◌<◌, ◌≡◌, ◌∙◌, ◌&&◌, some, ltb, leb, ◌==◌, if◌then◌else◌,
  arith,
}
use separation_kernel.Prelude.Words.{◌<<<◌}
use separation_kernel.Config.{n_quantum, min_hartid, n_harts}
use separation_kernel.Sched
use separation_kernel.Sched.{Schedule, Entry, invalid_pid}
use separation_kernel.Sched.Table.{IsHart, IsPid, get_lem}

abbrev whole : ℕ → Entry
whole i = record { pid = 0; length = n_quantum - i }

store-whole :
    (i j : ℕ) (s : Schedule) (r h : ℕ)
    → i < n_quantum
    → min_hartid ≤ j
    → r < n_quantum
    → IsHart h
    → Sched.get (Sched.store s i (j - min_hartid) (((n_quantum - i) <<< 8) % 2 ^ 16)) r h
      ≡ (if (r == i) && (h == j) then some (whole i) else Sched.get s r h)
unfolding Sched.store
store-whole i j s r h hi hj hr hh = ground (
  arith,
  get_lem (Sched.store s i (j - min_hartid) (((n_quantum - i) <<< 8) % 2 ^ 16)) r h hr hh,
  get_lem s r h hr hh,
)

init_harts-get :
    (rounds i j : ℕ) (s : Schedule) (r h : ℕ)
    → i < n_quantum
    → min_hartid ≤ j
    → r < n_quantum
    → IsHart h
    → Sched.get (Sched.init_harts rounds i j s) r h
      ≡ (if (r == i) && leb j h && ltb h (j + rounds) then some (whole i) else Sched.get s r h)
unfolding Sched.init_harts
init_harts-get zero i j s r h hi hj hr hh = ground arith
init_harts-get (suc rounds) i j s r h hi hj hr hh =
    init_harts-get rounds i (j + 1) _ r h hi (omega arith) hr hh
    ∙ ground (arith, store-whole i j s r h hi hj hr hh)

init_quanta-get :
    (rounds i : ℕ) (s : Schedule) (r h : ℕ)
    → i + rounds ≡ n_quantum
    → r < n_quantum
    → IsHart h
    → Sched.get (Sched.init_quanta rounds i s) r h
      ≡ (if leb i r then some (whole r) else Sched.get s r h)
unfolding Sched.init_quanta
init_quanta-get zero i s r h e hr hh = ground arith
init_quanta-get (suc rounds) i s r h e hr hh =
    init_quanta-get rounds (i + 1) _ r h (omega arith) hr hh
    ∙ ground (arith, init_harts-get n_harts i min_hartid s r h (omega arith) (omega arith) hr hh)

-- What the dispatcher relies on: an entry names a process of the kernel or none, and its slice
-- ends within the major frame.
pub record IsEntry (q : ℕ) (e : Entry) : Type 0 where
  pub pid : IsPid e.pid
  pub nonempty : 0 < e.length
  pub within : q + e.length ≤ n_quantum

abbrev pub IsFrame : Schedule → Type 0
IsFrame s =
    (q h : ℕ) → q < n_quantum → IsHart h → (e : Entry) → Sched.get s q h ≡ some e → IsEntry q e

-- After `sched_init` every quantum of every hart belongs to process 0, to the end of the frame.
pub init-get :
    (s : Schedule) (q h : ℕ)
    → q < n_quantum
    → IsHart h
    → Sched.get (Sched.init s) q h ≡ some (record { pid = 0; length = n_quantum - q })
unfolding Sched.init
init-get s q h hq hh = init_quanta-get n_quantum 0 s q h (omega arith) hq hh ∙ ground arith
