-- ===== src/Sched/Start/Sound.antt =====
-- src/sched.c: the dispatcher on a well-formed kernel.
use separation_kernel.Prelude.{
  ℕ, ◌+◌, ◌*◌, ◌/◌, ◌%◌, ◌^◌, ◌<◌, ◌≡◌, inl, inr, refl, ap, ◌∙◌, true, Option, none, some, List, [],
  ◌∷◌, ◌==◌, ltb, leb, Bool-cases, ==→eq, arith,
}
use separation_kernel.Config.{n_proc, n_quantum, ticks, scheduler_ticks}
use separation_kernel.CapNode.{Ptr}
use separation_kernel.CapNode.Forest.{Rings}
use separation_kernel.Proc.Reg
use separation_kernel.ProcState
use separation_kernel.ProcState.Code
use separation_kernel.Sched
use separation_kernel.Sched.{Entry, invalid_pid}
use separation_kernel.Sched.Table.{IsHart}
use separation_kernel.Sched.Dispatch.{get_proc_total, get_proc-some}
use separation_kernel.Sched.Start.{
  Timer, wait_and_set_timeout, try_entry, try_start, sched_start, sub64,
}
use separation_kernel.Kernel.{Kernel, Outcome, ok, set_proc, from_option}
use separation_kernel.Kernel.Runs.{bind-ok}
use separation_kernel.Kernel.Sound.{IsSound}
use separation_kernel.Kernel.Sound.Parts.{set_proc-IsSound}

-- Process `current` is started: it was ready, is running now, and stands in the schedule for the
-- hart.
pub record IsStarted (hartid : ℕ) (k k' : Kernel) : Type 0 where
  pub was_ready : (k.procs k'.current).state ≡ Code.ready
  pub running : (k'.procs k'.current).state ≡ Code.running
  pub scheduled :
      (time : ℕ) × (e : Entry) × (Sched.get_proc k.schedule hartid time ≡ some (some e))
      × (e.pid ≡ k'.current)

abbrev pub IsDispatch : (hartid : ℕ) → Kernel → Option Timer → Kernel → Type 0
IsDispatch hartid k none k' = k' ≡ k
IsDispatch hartid k (some timer) k' = IsStarted hartid k k'

abbrev Dispatches : (tables : Ptr) → Rings → (hartid : ℕ) → Kernel → Outcome (Option Timer) → Type 0
Dispatches tables rs hartid k o =
    (t : Option Timer) × (k' : Kernel) × (o ≡ ok t k')
    × IsSound tables rs k'
    × IsDispatch hartid k t k'

pub with_current :
    {tables : Ptr} {rs : Rings} {k : Kernel}
    → IsSound tables rs k
    → (i : ℕ) → i < n_proc
    → IsSound tables rs (record k { current = i })
with_current sound i lt = record {
  tables_not_null = sound.tables_not_null;
  forest = sound.forest;
  apart = sound.apart;
  caps = sound.caps;
  frame = sound.frame;
  procs = sound.procs;
  receivers = sound.receivers;
  current = lt;
}

module _ {tables : Ptr} {rs : Rings} {k : Kernel} (sound : IsSound tables rs k) (hartid time : ℕ)
    (is_hart : IsHart hartid) where
  try_entry-Dispatches :
      (e : Entry)
      → Sched.get_proc k.schedule hartid time ≡ some (some e)
      → e.pid < n_proc
      → Dispatches tables rs hartid k (try_entry time e k)
  unfolding try_entry ProcState.acquire ProcState.compare_and_set set_proc
  try_entry-Dispatches e found lt =
      let exists : ltb e.pid n_proc ≡ true = ground arith in
      let end_time = sub64 ((time + e.length) * ticks % 2 ^ 64) scheduler_ticks in
      rw exists (elim (Bool-cases (leb end_time ((k.procs e.pid).regs Reg.timeout))) [
        | inl asleep ↦ (none, k, rw asleep refl, sound, refl)
        | inr awake ↦ elim (Bool-cases ((k.procs e.pid).state == Code.ready)) [
          | inr busy ↦ (none, k, rw (awake, busy) refl, sound, refl)
          | inl is_ready ↦
              let run = set_proc k e.pid (record (k.procs e.pid) { state = Code.running }) in
              (
                some (wait_and_set_timeout time e.length ((k.procs e.pid).regs Reg.timeout)),
                record run { current = e.pid },
                rw (awake, is_ready) refl,
                with_current (set_proc-IsSound sound e.pid _ refl refl) e.pid lt,
                record {
                  was_ready = ==→eq _ _ is_ready;
                  running = ground arith;
                  scheduled = (time, e, found, refl);
                },
              )
        ]
      ])

  try_start-Dispatches : Dispatches tables rs hartid k (try_start hartid time k)
  unfolding try_start
  try_start-Dispatches = go (Sched.get_proc k.schedule hartid time) refl
    where
      go :
          (found : Option (Option Entry))
          → Sched.get_proc k.schedule hartid time ≡ found
          → Dispatches tables rs hartid k (try_start hartid time k)
      go none e = absurd (get_proc_total k.schedule hartid time is_hart e)
      go (some none) e = (none, k, rw (e, from_option) refl, sound, refl)
      go (some (some entry)) e =
          let (got, valid, _) = get_proc-some k.schedule time hartid entry e in
          let within =
            (sound.frame (time % n_quantum) hartid (omega arith) is_hart entry got).pid in
          let (t, k', run, sound', dispatch) = try_entry-Dispatches entry e (ground arith) in
          (t, k', rw (e, from_option) run, sound', dispatch)

-- On a well-formed kernel and a hart of the kernel, whatever the timer reads, no assertion of the
-- dispatcher fails and the kernel stays well-formed. Either no process was started and nothing has
-- changed, or the process that is current now was ready, is running, and is the one that the
-- schedule gives to the hart at some time.
pub sched_start-IsSound :
    (tables : Ptr) (rs : Rings) (k : Kernel) (hartid : ℕ) (readings : List ℕ)
    → IsSound tables rs k
    → IsHart hartid
    → (t : Option Timer) × (k' : Kernel) × (sched_start readings hartid k ≡ ok t k')
      × IsSound tables rs k'
      × IsDispatch hartid k t k'
unfolding sched_start
sched_start-IsSound tables rs k hartid [] sound is_hart = (none, k, refl, sound, refl)
sched_start-IsSound tables rs k hartid (now ∷ readings) sound is_hart =
    go (try_start-Dispatches sound hartid (now / ticks + 1) is_hart)
      (sched_start-IsSound tables rs k hartid readings sound is_hart)
  where
    go :
        Dispatches tables rs hartid k (try_start hartid (now / ticks + 1) k)
        → Dispatches tables rs hartid k (sched_start readings hartid k)
        → Dispatches tables rs hartid k (sched_start (now ∷ readings) hartid k)
    go (some t, k', run, sound', dispatch) later =
        (some t, k', bind-ok (try_start hartid (now / ticks + 1)) _ {k = k} run, sound', dispatch)
    go (none, k', run, sound', same) (t, k'', rest, sound'', dispatch) = (
      t,
      k'',
      bind-ok (try_start hartid (now / ticks + 1)) _ {k = k} run
          ∙ ap (λ (j : Kernel). sched_start readings hartid j) same
          ∙ rest,
      sound'',
      dispatch,
    )
