-- ===== src/Syscall/Settled/Hook.antt =====
-- `cap_update_hook` and `interprocess_move` keep the invariant of the kernel.
use separation_kernel.Prelude.{
  ℕ, ◌<◌, ◌≡◌, ◌⊎◌, inl, inr, refl, true, false, ◌&&◌, Option, none, some, ltb, ◌==◌, arith,
  Bool-cases, ==→eq, ltb→lt,
}
use separation_kernel.Config.{n_channels}
use separation_kernel.Cap.{Cap, get_type, is_type}
use separation_kernel.Cap.CapType
use separation_kernel.Cap.Time
use separation_kernel.Cap.Receiver
use separation_kernel.Cap.Server
use separation_kernel.Cap.Valid.Defs.{IsValid}
use separation_kernel.CapNode.{Ptr, is_deleted}
use separation_kernel.CapNode.Forest.{Rings}
use separation_kernel.Sched
use separation_kernel.Sched.{Schedule}
use separation_kernel.Sched.Table.{IsPid}
use separation_kernel.Sched.Init.{IsFrame}
use separation_kernel.Sched.Frame.{update-IsFrame}
use separation_kernel.Kernel.{Kernel, Outcome, ok, fault, from_option}
use separation_kernel.Kernel.Runs.{bind-ok}
use separation_kernel.Kernel.Sound.{IsSound, IsReceiver, IsExhausted}
use separation_kernel.Syscall.Hook.{
  time_hook, channel_hook, cap_update_hook, registered, pid_of, is_none,
}

-- The kernel after a hook, which touches the schedule and the receivers.
abbrev pub with_hook : Kernel → Schedule → (ℕ → ℕ → Option ℕ) → Kernel
with_hook k s r = record k { schedule = s; receivers = r }

abbrev pub Hooked : Kernel → Outcome (Unit {0}) → Type 0
Hooked k o =
    (s : Schedule) × (r : ℕ → ℕ → Option ℕ) × (o ≡ ok tt (with_hook k s r))
    × IsFrame s
    × ((c i : ℕ) → IsReceiver (r c i))

registered-IsReceiver :
    (r : ℕ → ℕ → Option ℕ) (channel : ℕ) (proc : Option ℕ)
    → ((c i : ℕ) → IsReceiver (r c i))
    → IsReceiver proc
    → (c i : ℕ) → IsReceiver (registered r channel proc c i)
registered-IsReceiver r channel proc all one c i = elim (Bool-cases ((c == channel) && (i == 0))) [
  | inl first ↦ rw first one
  | inr later ↦ rw later (elim (Bool-cases ((c == channel) && (i == 1) && is_none proc)) [
    | inl second ↦ rw second tt
    | inr other ↦ rw other (all c i)
  ])
]

module _ {tables : Ptr} {rs : Rings} {k : Kernel} (sound : IsSound tables rs k) where
  pid_of-IsPid : (proc : Option ℕ) → IsReceiver proc → IsPid (pid_of k proc)
  pid_of-IsPid none h = inl refl
  pid_of-IsPid (some i) h = let p = sound.procs i h in inr (ground arith)

module _ {tables : Ptr} {rs : Rings} {k : Kernel} (sound : IsSound tables rs k) (proc : Option ℕ)
    (is_proc : IsReceiver proc) (node : Ptr) where
  time_hook-Hooked :
      (cap : Cap)
      → IsValid cap
      → get_type cap ≡ CapType.time
      → Time.get_free cap < Time.get_end cap
      → Hooked k (time_hook proc node cap k)
  unfolding time_hook
  time_hook-Hooked cap valid kind lt =
      let (s, run, frame) =
        update-IsFrame k.schedule (is_deleted k.heap node) (Time.get_hartid cap) (Time.get_free cap)
          (Time.get_end cap) (pid_of k proc) (valid.hart kind) lt (valid.time kind).2
          (pid_of-IsPid sound proc is_proc) sound.frame in
      (s, k.receivers, rw (run, from_option) refl, frame, sound.receivers)

  channel_hook-Hooked :
      (channel : ℕ) → channel < n_channels → Hooked k (channel_hook proc node channel k)
  unfolding channel_hook
  channel_hook-Hooked channel lt = elim (Bool-cases (is_deleted k.heap node)) [
    | inl gone ↦ (k.schedule, k.receivers, rw gone refl, sound.frame, sound.receivers)
    | inr live ↦
        let within : ltb channel n_channels ≡ true = ground arith in
        (
          k.schedule,
          registered k.receivers channel proc,
          rw (live, within) refl,
          sound.frame,
          registered-IsReceiver k.receivers channel proc sound.receivers is_proc,
        )
  ]

module _ {tables : Ptr} {rs : Rings} {k : Kernel} (sound : IsSound tables rs k) (proc : Option ℕ)
    (is_proc : IsReceiver proc) (node : Ptr) (cap : Cap) (valid : IsValid cap) where
  -- The hook of a well-formed capability ends, unless the capability is for time that has been
  -- handed out to the end, and leaves the schedule and the receivers well-formed.
  pub cap_update_hook-Hooked :
      (get_type cap ≡ CapType.time → Time.get_free cap < Time.get_end cap)
      → Hooked k (cap_update_hook proc node cap k)
  unfolding cap_update_hook is_type
  cap_update_hook-Hooked some_time = elim (Bool-cases (get_type cap == CapType.time)) [
    | inl kind ↦
        let e = ==→eq _ _ kind in
        let (s, r, run, frame, owned) =
          time_hook-Hooked sound proc is_proc node cap valid e (some_time e) in
        (s, r, rw e (bind-ok (time_hook proc node cap) _ {k = k} run), frame, owned)
    | inr not_time ↦ rw not_time (elim (Bool-cases (get_type cap == CapType.receiver)) [
      | inl kind ↦
          let e = ==→eq _ _ kind in
          let (s, r, run, frame, owned) =
            channel_hook-Hooked sound proc is_proc node (Receiver.get_channel cap)
              (valid.receiver e) in
          (
            s,
            r,
            rw e (bind-ok (channel_hook proc node (Receiver.get_channel cap)) _ {k = k} run),
            frame,
            owned,
          )
      | inr not_receiver ↦ rw not_receiver (elim (Bool-cases (get_type cap == CapType.server)) [
        | inl kind ↦
            let e = ==→eq _ _ kind in
            let (s, r, run, frame, owned) =
              channel_hook-Hooked sound proc is_proc node (Server.get_channel cap)
                (valid.server e) in
            (s, r, rw e run, frame, owned)
        | inr not_server ↦
            rw not_server (k.schedule, k.receivers, refl, sound.frame, sound.receivers)
      ])
    ])
  ]

-- Either the hook of a capability ends, or the capability is for time that is handed out.
pub slice_cases :
    (cap : Cap)
    → (get_type cap ≡ CapType.time → Time.get_free cap < Time.get_end cap) ⊎ IsExhausted cap
slice_cases cap = elim (Bool-cases (get_type cap == CapType.time)) [
  | inl kind ↦ elim (Bool-cases (ltb (Time.get_free cap) (Time.get_end cap))) [
    | inl lt ↦ inl (λ _. ltb→lt _ _ lt)
    | inr ge ↦ inr (==→eq _ _ kind, ground arith)
  ]
  | inr other ↦ inl (λ e. absurd (ground arith))
]

pub cap_update_hook-exhausted :
    (k : Kernel) (proc : Option ℕ) (node : Ptr) (cap : Cap)
    → IsExhausted cap
    → cap_update_hook proc node cap k ≡ fault
unfolding cap_update_hook time_hook is_type Sched.update
cap_update_hook-exhausted k proc node cap (kind, le) =
    let over : ltb (Time.get_free cap) (Time.get_end cap) ≡ false = ground arith in
    rw (kind, over, from_option) refl
