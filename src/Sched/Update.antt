-- ===== src/Sched/Update.antt =====
-- `sched_update` writes the quanta of a time slice and no other entry.
use separation_kernel.Prelude.{
  ℕ, zero, suc, ◌+◌, ◌-◌, ◌≤◌, ◌<◌, ◌≡◌, refl, false, ◌&&◌, some, ltb, leb, ◌==◌, if◌then◌else◌,
  arith,
}
use separation_kernel.Config.{n_quantum}
use separation_kernel.Sched
use separation_kernel.Sched.{Schedule, Entry, invalid_pid, hartid_ok, pid_ok}
use separation_kernel.Sched.Table.{IsHart, IsPid, get-set}

-- Schedule `t` is `s` with the quanta from `i` to `end` of a hart given to a process.
abbrev pub IsUpdated : (s t : Schedule) (hartid i end pid : ℕ) → Type 0
IsUpdated s t hartid i end pid =
    (r h : ℕ)
    → r < n_quantum
    → IsHart h
    → Sched.get t r h ≡ (
        if (h == hartid) && leb i r && ltb r end
        then some (record { pid = pid; length = end - r })
        else Sched.get s r h)

module _ (hartid end pid : ℕ) (hh : IsHart hartid) (he : end ≤ n_quantum) (hp : IsPid pid) where
  update_from-IsUpdated :
      (rounds : ℕ) (s : Schedule) (i : ℕ)
      → i + rounds ≡ end
      → (t : Schedule) × (Sched.update_from rounds s hartid i end pid ≡ some t)
        × IsUpdated s t hartid i end pid
  unfolding Sched.update_from
  update_from-IsUpdated zero s i e = (s, refl, λ r h hr ok. ground arith)
  update_from-IsUpdated (suc rounds) s i e =
      let (mid, run, reads) = get-set s i hartid pid (end - i) (omega arith) hh hp (omega arith) in
      let (t, run', reads') = update_from-IsUpdated rounds mid (i + 1) (omega arith) in
      (
        t,
        rw (run, Sched.update_from) run',
        λ r h hr ok. ground (arith, reads r h hr ok, reads' r h hr ok),
      )

-- For a time slice within the major frame, a hart and a process of the kernel, `sched_update` of a
-- node that is not deleted meets no failed assertion, gives each quantum of the slice to the process
-- with the length up to the end of the slice, and leaves every other entry as it was.
pub update-IsUpdated :
    (s : Schedule) (hartid begin end pid : ℕ)
    → IsHart hartid
    → begin < end
    → end ≤ n_quantum
    → IsPid pid
    → (t : Schedule) × (Sched.update s false hartid begin end pid ≡ some t)
      × IsUpdated s t hartid begin end pid
unfolding Sched.update
update-IsUpdated s hartid begin end pid hh lt he hp =
    let (t, run, reads) =
      update_from-IsUpdated hartid end pid hh he hp (end - begin) s begin (omega arith) in
    (t, ground (arith, run), reads)
