-- ===== src/Sched.antt =====
-- src/sched.c: the schedule, a table of one 16-bit entry for each quantum of the major frame and
-- each hart. `none` is a failed `kassert`. The lock of the table is held in `update` from the test
-- of the node to the last store, so that the function is one step here.
pub mod Table
pub mod Update
pub mod Dispatch
pub mod Frame
pub mod Init
pub mod Start
use separation_kernel.Prelude.{
  ℕ, zero, suc, ◌+◌, ◌-◌, ◌*◌, ◌/◌, ◌%◌, ◌^◌, Bool, true, false, ◌&&◌, ◌||◌, Option, none, some,
  ltb, leb, ◌==◌, if◌then◌else◌,
}
use separation_kernel.Prelude.Words.{◌<<<◌, ◌>>>◌, ◌&&&◌, ◌|||◌}
use separation_kernel.Config.{n_proc, n_quantum, min_hartid, max_hartid, n_harts}

abbrev pub invalid_pid : ℕ
invalid_pid = 0xff

-- `schedule[quantum][hart]`.
abbrev pub Schedule : Type 0
Schedule = ℕ → ℕ → ℕ

pub record Entry : Type 0 where
  pub pid : ℕ
  pub length : ℕ

unfoldable pub store : Schedule → (q hart value : ℕ) → Schedule
store s q hart value r h = if (r == q) && (h == hart) then value else s r h

abbrev pub hartid_ok : ℕ → Bool
hartid_ok hartid = leb min_hartid hartid && leb hartid max_hartid

abbrev pub pid_ok : ℕ → Bool
pid_ok pid = (pid == invalid_pid) || ltb pid n_proc

-- The inner and the outer loop of `sched_init`, with the rounds left.
unfoldable pub init_harts : ℕ → (i j : ℕ) → Schedule → Schedule
unfolding store
init_harts zero i j s = s
init_harts (suc rounds) i j s =
    init_harts rounds i (j + 1) (store s i (j - min_hartid) (((n_quantum - i) <<< 8) % 2 ^ 16))

unfoldable pub init_quanta : ℕ → (i : ℕ) → Schedule → Schedule
init_quanta zero i s = s
init_quanta (suc rounds) i s = init_quanta rounds (i + 1) (init_harts n_harts i min_hartid s)

unfoldable pub init : Schedule → Schedule
init s = init_quanta n_quantum 0 s

abbrev pub entry_of : ℕ → Entry
entry_of value = record { pid = value &&& 0xff; length = (value >>> 8) &&& 0xff }

unfoldable pub get : Schedule → (q hartid : ℕ) → Option Entry
get s q hartid =
    if ltb q n_quantum && hartid_ok hartid
    then some (entry_of (s q (hartid - min_hartid)))
    else none

unfoldable pub set : Schedule → (q hartid pid length : ℕ) → Option Schedule
unfolding store
set s q hartid pid length =
    if hartid_ok hartid && ltb q n_quantum && pid_ok pid && ((length &&& 0xff) == length)
    then some (store s q (hartid - min_hartid) ((pid ||| (length <<< 8)) % 2 ^ 16))
    else none

-- The loop of `sched_update` from quantum `i`, with the rounds left.
unfoldable pub update_from : ℕ → Schedule → (hartid i end pid : ℕ) → Option Schedule
update_from zero s hartid i end pid = some s
update_from (suc rounds) s hartid i end pid = elim (set s i hartid pid (end - i)) [
  | none ↦ none
  | some s' ↦ update_from rounds s' hartid (i + 1) end pid
]

-- `deleted` is the test of the node under the lock.
unfoldable pub update : Schedule → (deleted : Bool) → (hartid begin end pid : ℕ) → Option Schedule
update s deleted hartid begin end pid =
    if ltb begin end && hartid_ok hartid && leb end n_quantum && pid_ok pid
    then if deleted then some s else update_from (end - begin) s hartid begin end pid
    else none

-- The loop of `sched_get_proc` over the harts below: does one of them have the process?
unfoldable pub preempted : ℕ → Schedule → (quantum i pid : ℕ) → Option Bool
preempted zero s quantum i pid = some false
preempted (suc rounds) s quantum i pid = elim (get s quantum i) [
  | none ↦ none
  | some other ↦
      let rest = preempted rounds s quantum (i + 1) pid in
      if pid == other.pid then some true else rest
]

-- The entry to run, or `none` within if there is nothing to run.
unfoldable pub get_proc : Schedule → (hartid time : ℕ) → Option (Option Entry)
get_proc s hartid time = elim (get s (time % n_quantum) hartid) [
  | none ↦ none
  | some entry ↦
      if entry.pid == invalid_pid
      then some none
      else elim (preempted (hartid - min_hartid) s (time % n_quantum) min_hartid entry.pid) [
        | none ↦ none
        | some true ↦ some none
        | some false ↦ some (some entry)
      ]
]
