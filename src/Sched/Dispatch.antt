-- ===== src/Sched/Dispatch.antt =====
-- `sched_get_proc`: no process is given to two harts in the same quantum.
use separation_kernel.Prelude.{
  ℕ, zero, suc, ◌+◌, ◌-◌, ◌%◌, ◌≤◌, ◌<◌, ◌≡◌, ◌≢◌, sym, false, some, none, arith,
}
use native.Mathlib.Decide.{dec_lt}
use separation_kernel.Config.{n_quantum, min_hartid, max_hartid}
use separation_kernel.Sched
use separation_kernel.Sched.{Schedule, Entry, invalid_pid}
use separation_kernel.Sched.Table.{IsHart, get_lem}

module _ (s : Schedule) (quantum pid : ℕ) where
  -- No hart from `i` on has the process, in so many rounds.
  preempted_none :
      (rounds i h : ℕ) (e : Entry)
      → Sched.preempted rounds s quantum i pid ≡ some false
      → i ≤ h
      → h < i + rounds
      → Sched.get s quantum h ≡ some e
      → pid ≢ e.pid
  unfolding Sched.preempted
  preempted_none zero i h e run lo hi got = absurd (omega arith)
  preempted_none (suc rounds) i h e run lo hi got =
      ground (arith, preempted_none rounds (i + 1) h e)

preempted_total :
    (s : Schedule) (quantum pid rounds i : ℕ)
    → quantum < n_quantum
    → min_hartid ≤ i
    → i + rounds ≤ max_hartid + 1
    → Sched.preempted rounds s quantum i pid ≢ none
unfolding Sched.preempted
preempted_total s quantum pid zero i hq lo hi = cc
preempted_total s quantum pid (suc rounds) i hq lo hi =
    ground (
      arith,
      get_lem s quantum i hq (lo, omega arith),
      preempted_total s quantum pid rounds (i + 1),
    )

-- On a hart of the kernel no assertion of `sched_get_proc` fails.
pub get_proc_total :
    (s : Schedule) (hartid time : ℕ) → IsHart hartid → Sched.get_proc s hartid time ≢ none
unfolding Sched.get_proc
get_proc_total s hartid time hh = ground (
  arith,
  get_lem s (time % n_quantum) hartid (omega arith) hh,
  preempted_total s (time % n_quantum) (s (time % n_quantum) (hartid - min_hartid) % 256)
      (hartid - min_hartid) min_hartid,
)

module _ (s : Schedule) (time : ℕ) where
  -- What `get_proc` gives is the entry, and no lower hart has its process.
  pub get_proc-some :
      (hartid : ℕ) (e : Entry)
      → Sched.get_proc s hartid time ≡ some (some e)
      → (Sched.get s (time % n_quantum) hartid ≡ some e)
        × (e.pid ≢ invalid_pid)
        × (Sched.preempted (hartid - min_hartid) s (time % n_quantum) min_hartid e.pid ≡ some false)
  unfolding Sched.get_proc
  get_proc-some hartid e h = ground arith

  get_proc_lt :
      (i j : ℕ) (e f : Entry)
      → Sched.get_proc s i time ≡ some (some e)
      → Sched.get_proc s j time ≡ some (some f)
      → min_hartid ≤ i
      → i < j
      → e.pid ≢ f.pid
  get_proc_lt i j e f hi hj lo lt =
      let (got, _, _) = get_proc-some i e hi in
      let (_, _, clear) = get_proc-some j f hj in
      let apart =
        preempted_none s (time % n_quantum) f.pid (j - min_hartid) min_hartid i e clear lo
          (omega arith) got in
      λ same. apart (sym same)

-- Whatever the schedule holds: in one quantum `sched_get_proc` gives a process to one hart at most.
pub get_proc_unique :
    (s : Schedule) (time i j : ℕ) (e f : Entry)
    → IsHart i
    → IsHart j
    → Sched.get_proc s i time ≡ some (some e)
    → Sched.get_proc s j time ≡ some (some f)
    → e.pid ≡ f.pid
    → i ≡ j
get_proc_unique s time i j e f hi hj at_i at_j same = elim (dec_lt i j) [
  | yes lt ↦ absurd (get_proc_lt s time i j e f at_i at_j hi.0 lt same)
  | no ge ↦ elim (dec_lt j i) [
    | yes lt ↦ absurd (get_proc_lt s time j i f e at_j at_i hj.0 lt (sym same))
    | no le ↦ omega arith
  ]
]
