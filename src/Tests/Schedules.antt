-- ===== src/Tests/Schedules.antt =====
-- The schedule.
use separation_kernel.Prelude.{ℕ, ◌+◌, ◌*◌, ◌≡◌, refl, false, some, inr, arith}
use separation_kernel.Sched
use separation_kernel.Sched.{Schedule, Entry}
use separation_kernel.Sched.Table.{IsHart, IsPid}
use separation_kernel.Sched.Update.{IsUpdated, update-IsUpdated}
use separation_kernel.Sched.Dispatch.{get_proc_unique}

abbrev blank : Schedule
blank q h = 0

abbrev hart_two : IsHart 2
hart_two = omega arith

abbrev pid_three : IsPid 3
pid_three = inr (omega arith)

-- Quanta 10 to 20 of hart 2 are given to process 3.
update-IsUpdated_example :
    (t : Schedule) × (Sched.update (Sched.init blank) false 2 10 20 3 ≡ some t)
    × IsUpdated (Sched.init blank) t 2 10 20 3
update-IsUpdated_example =
    update-IsUpdated (Sched.init blank) 2 10 20 3 hart_two (omega arith) (omega arith) pid_three

-- Hart 1 gets process 4 of this table, and every other hart nothing.
abbrev one_process : Schedule
one_process q h = 128 * 256 + 4

first_turn : Sched.get_proc one_process 1 7 ≡ some (some (record { pid = 4; length = 128 }))
unfolding Sched.get_proc Sched.get Sched.preempted
first_turn = refl

get_proc_unique_example : ◌≡◌ {A = ℕ} 1 1
get_proc_unique_example =
    get_proc_unique one_process 7 1 1 (record { pid = 4; length = 128 })
      (record { pid = 4; length = 128 }) (omega arith) (omega arith) first_turn first_turn refl
