-- ===== src/Runs.antt =====
-- Runs of the whole kernel: it boots, harts pick processes, and processes enter the kernel. The
-- harts take turns, one entry of the kernel at a time.
use separation_kernel.Prelude.{ℕ, ◌<◌, ◌≡◌, ◌^◌, List, some}
use separation_kernel.Config.{n_proc}
use separation_kernel.CapNode.{Ptr, Heap}
use separation_kernel.CapNode.Forest.{Rings}
use separation_kernel.Sched.Table.{IsHart}
use separation_kernel.Sched.Start.{Timer, sched_start}
use separation_kernel.Sched.Start.Sound.{sched_start-IsSound, with_current}
use separation_kernel.Kernel.{Kernel, Outcome, ok, fault, yield}
use separation_kernel.Kernel.Sound.{IsSound, IsFaulty, Settled}
use separation_kernel.Syscall.Settled.Steps.{ok-Settled}
use separation_kernel.Boot.{Layout, zeroed, boot}
use separation_kernel.Boot.Sound.{IsLayout, boot-IsSound}
use separation_kernel.Trap.{Cause, trap_entry}
use separation_kernel.Trap.Settled.{trap_entry-Settled}

-- The registers of a hart hold 64-bit words.
abbrev pub IsWords : Cause → Type 0
IsWords c = (i : ℕ) → c.regs i < 2 ^ 64

-- The states that the kernel gets to, with its memory at `l` and the first process at
-- `root_payload`. In a `turn` another hart goes on, which runs process `i`.
pub data Reach (l : Layout) (root_payload : ℕ) : Kernel → Type 0 where
  booted : {k : Kernel} → boot l root_payload zeroed ≡ ok tt k → Reach l root_payload k
  started :
      {k k' : Kernel} {t : Timer}
      → Reach l root_payload k
      → (readings : List ℕ) (hartid : ℕ) → IsHart hartid
      → sched_start readings hartid k ≡ ok (some t) k'
      → Reach l root_payload k'
  trapped :
      {k k' : Kernel}
      → Reach l root_payload k
      → (c : Cause) → IsWords c
      → trap_entry c k ≡ ok tt k'
      → Reach l root_payload k'
  yielded :
      {k k' : Kernel}
      → Reach l root_payload k
      → (c : Cause) → IsWords c
      → trap_entry c k ≡ yield k'
      → Reach l root_payload k'
  turn :
      {k : Kernel}
      → Reach l root_payload k
      → (i : ℕ) → i < n_proc
      → Reach l root_payload (record k { current = i })

-- What an operation that settles leaves when it comes back or gives up the hart.
came_back :
    {A : Type 0} {tables : Ptr} (h : Heap) {o : Outcome A} {a : A} {k : Kernel}
    → Settled tables h o
    → o ≡ ok a k
    → (rs : Rings) × IsSound tables rs k
came_back h s e = rw e at s

gave_up :
    {A : Type 0} {tables : Ptr} (h : Heap) {o : Outcome A} {k : Kernel}
    → Settled tables h o
    → o ≡ yield k
    → (rs : Rings) × IsSound tables rs k
gave_up h s e = rw e at s

module _ (l : Layout) (root_payload : ℕ) (layout : IsLayout l) (small : root_payload < 2 ^ 44) where
  -- In every state that the kernel gets to from its boot, under system calls, exceptions and
  -- interrupts of its processes in any order, it is well-formed: the nodes in use are in lists with
  -- links that agree, every capability is within the arrays of the kernel and its own range, and the
  -- schedule, the receivers and the processes name processes and tables that exist.
  pub Reach-IsSound : (k : Kernel) → Reach l root_payload k → (rs : Rings) × IsSound l.tables rs k
  Reach-IsSound k (booted e) =
      let (rs, k', run, sound, _) = boot-IsSound l root_payload layout small in
      came_back zeroed.heap (ok-Settled zeroed.heap run sound) e
  Reach-IsSound k (started before readings hartid hart e) =
      let (rs, sound) = Reach-IsSound _ before in
      let (t, k', run, sound', _) = sched_start-IsSound l.tables rs _ hartid readings sound hart in
      came_back zeroed.heap (ok-Settled zeroed.heap run sound') e
  Reach-IsSound k (trapped {k = j} before c words e) =
      let (rs, sound) = Reach-IsSound _ before in
      came_back j.heap (trap_entry-Settled l.tables rs _ c sound words) e
  Reach-IsSound k (yielded {k = j} before c words e) =
      let (rs, sound) = Reach-IsSound _ before in
      gave_up j.heap (trap_entry-Settled l.tables rs _ c sound words) e
  Reach-IsSound _ (turn before i lt) =
      let (rs, sound) = Reach-IsSound _ before in (rs, with_current sound i lt)

  -- In every such state, a system call, exception or interrupt meets a failed assertion, an access
  -- beyond an array or a loop that does not end only if some node holds a capability for time whose
  -- slice has been handed out to its end, or some node that is in no list still holds channels.
  pub trap_entry-fault :
      (k : Kernel) (c : Cause)
      → Reach l root_payload k
      → IsWords c
      → trap_entry c k ≡ fault
      → (p : Ptr) × IsFaulty k.heap p
  trap_entry-fault k c reached words e =
      let (rs, sound) = Reach-IsSound k reached in
      rw e at (trap_entry-Settled l.tables rs k c sound words)
