-- ===== src/Sched/Table.antt =====
-- One entry of the schedule: what is stored is read back.
use separation_kernel.Prelude.{
  ℕ, ◌+◌, ◌-◌, ◌*◌, ◌/◌, ◌%◌, ◌^◌, ◌≤◌, ◌<◌, ◌≡◌, ◌⊎◌, ◌&&◌, some, ◌==◌, if◌then◌else◌, arith,
}
use separation_kernel.Prelude.Bits.{bit_and_mask, bit_or_above}
use separation_kernel.Config.{n_proc, n_quantum, min_hartid, max_hartid}
use separation_kernel.Sched
use separation_kernel.Sched.{Schedule, Entry, invalid_pid, hartid_ok, pid_ok}

abbrev pub IsHart : ℕ → Type 0
IsHart hartid = (min_hartid ≤ hartid) × (hartid ≤ max_hartid)

abbrev pub IsPid : ℕ → Type 0
IsPid pid = (pid ≡ invalid_pid) ⊎ (pid < n_proc)

pub get_lem :
    (s : Schedule) (q hartid : ℕ)
    → q < n_quantum
    → IsHart hartid
    → Sched.get s q hartid
      ≡ some (record {
        pid = s q (hartid - min_hartid) % 256;
        length = s q (hartid - min_hartid) / 256 % 256;
      })
unfolding Sched.get
get_lem s q hartid hq hh =
    let value = s q (hartid - min_hartid) in
    ground (arith, bit_and_mask 8 value, bit_and_mask 8 (value / 2 ^ 8))

module _ (s : Schedule) (q hartid pid length : ℕ) (hq : q < n_quantum) (hh : IsHart hartid)
    (hp : IsPid pid) (hl : length < 256) where
  set_lem :
      Sched.set s q hartid pid length
      ≡ some (Sched.store s q (hartid - min_hartid) (length * 256 + pid))
  unfolding Sched.set
  set_lem = ground (arith, bit_and_mask 8 length, bit_or_above 8 pid length)

  pub get-set :
      (s' : Schedule) × (Sched.set s q hartid pid length ≡ some s')
      × ((r h : ℕ)
          → r < n_quantum
          → IsHart h
          → Sched.get s' r h ≡ (
              if (r == q) && (h == hartid)
              then some (record { pid = pid; length = length })
              else Sched.get s r h))
  get-set = (
    Sched.store s q (hartid - min_hartid) (length * 256 + pid),
    set_lem,
    λ r h hr ok.
        unfold Sched.store in
        ground (
          arith,
          get_lem (Sched.store s q (hartid - min_hartid) (length * 256 + pid)) r h hr ok,
          get_lem s r h hr ok,
        ),
  )
