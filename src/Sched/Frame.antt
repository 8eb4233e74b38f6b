-- ===== src/Sched/Frame.antt =====
-- The schedule stays well-formed, so that the dispatcher gives processes of the kernel slices that
-- end within the major frame.
use separation_kernel.Prelude.{
  ℕ, ◌%◌, ◌≤◌, ◌<◌, ◌≡◌, refl, Bool, true, false, Option, none, some, arith,
}
use separation_kernel.Config.{n_proc, n_quantum}
use separation_kernel.Sched
use separation_kernel.Sched.{Schedule, Entry, invalid_pid}
use separation_kernel.Sched.Table.{IsHart, IsPid}
use separation_kernel.Sched.Update.{IsUpdated, update-IsUpdated}
use separation_kernel.Sched.Init.{IsEntry, IsFrame, init-get}
use separation_kernel.Sched.Dispatch.{get_proc-some, get_proc_total}

-- `sched_init` makes a well-formed schedule.
pub init-IsFrame : (s : Schedule) → IsFrame (Sched.init s)
init-IsFrame s q h hq hh e got = ground (arith, init-get s q h hq hh)

-- A schedule stays well-formed when a slice of the frame is given to a process of the kernel or none.
IsUpdated-IsFrame :
    (s t : Schedule) (hartid begin end pid : ℕ)
    → end ≤ n_quantum
    → IsPid pid
    → IsUpdated s t hartid begin end pid
    → IsFrame s
    → IsFrame t
IsUpdated-IsFrame s t hartid begin end pid he hp updated frame q h hq hh e got =
    ground (arith, updated q h hq hh, frame q h hq hh e)

-- For a time slice within the major frame, a hart of the kernel, and a process of the kernel or
-- none, `sched_update` meets no failed assertion and keeps the schedule well-formed, whether the
-- node is deleted or not.
pub update-IsFrame :
    (s : Schedule) (deleted : Bool) (hartid begin end pid : ℕ)
    → IsHart hartid
    → begin < end
    → end ≤ n_quantum
    → IsPid pid
    → IsFrame s
    → (t : Schedule) × (Sched.update s deleted hartid begin end pid ≡ some t) × IsFrame t
unfolding Sched.update
update-IsFrame s true hartid begin end pid hh lt he hp frame = (s, ground arith, frame)
update-IsFrame s false hartid begin end pid hh lt he hp frame =
    let (t, run, updated) = update-IsUpdated s hartid begin end pid hh lt he hp in
    (t, run, IsUpdated-IsFrame s t hartid begin end pid he hp updated frame)

-- What the dispatcher may be told: nothing, or an entry of the quantum.
abbrev pub IsTurn : (time : ℕ) → Option (Option Entry) → Type 0
IsTurn time none = ⊥
IsTurn time (some none) = Unit {0}
IsTurn time (some (some e)) = (e.pid < n_proc) × IsEntry (time % n_quantum) e

-- On a well-formed schedule `sched_get_proc` on a hart of the kernel meets no failed assertion, and
-- what it gives to run is a process of the kernel, for a slice that is not empty and ends within
-- the major frame.
pub get_proc-IsTurn :
    (s : Schedule) (hartid time : ℕ)
    → IsFrame s
    → IsHart hartid
    → IsTurn time (Sched.get_proc s hartid time)
get_proc-IsTurn s hartid time frame hh = turn (Sched.get_proc s hartid time) refl
  where
    turn : (o : Option (Option Entry)) → Sched.get_proc s hartid time ≡ o → IsTurn time o
    turn none e = absurd (get_proc_total s hartid time hh e)
    turn (some none) e = tt
    turn (some (some e)) got =
        let found = get_proc-some s time hartid e got in
        let entry = frame (time % n_quantum) hartid (omega arith) hh e found.0 in
        let process = entry.pid in (ground arith, entry)
