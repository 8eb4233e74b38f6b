-- ===== src/Syscall/Settled/Procs.antt =====
-- What an operation that works on nodes leaves of the processes: their records.
use separation_kernel.Prelude.{
  ℕ, ◌≡◌, inl, inr, refl, ◌∙◌, Bool, true, false, Option, none, some, ltb, Bool-cases,
}
use separation_kernel.Cap.{Cap, is_type}
use separation_kernel.Cap.CapType
use separation_kernel.Cap.Time
use separation_kernel.Cap.Receiver
use separation_kernel.CapNode.{Ptr, Heap, is_deleted, get_cap}
use separation_kernel.CapNode
use separation_kernel.Proc.{Proc, get_cap_node}
use separation_kernel.Kernel.{
  Kernel, Outcome, ok, fault, yield, M, when, from_option, on_heap, rounds,
}
use separation_kernel.Syscall.Hook.{
  cap_update_hook, time_hook, channel_hook, interprocess_move, pid_of,
}
use separation_kernel.Sched
use separation_kernel.Config.{n_channels}

-- If the operation comes back, the processes are those given.
abbrev pub LeavesProcs : {A : Type 0} → (ℕ → Proc) → Outcome A → Type 0
LeavesProcs ps (ok a k) = k.procs ≡ ps
LeavesProcs ps fault = Unit {0}
LeavesProcs ps (yield k) = Unit {0}

subst-LeavesProcs :
    {A : Type 0} {qs ps : ℕ → Proc} (o : Outcome A) → qs ≡ ps → LeavesProcs qs o → LeavesProcs ps o
subst-LeavesProcs (ok a k) e h = h ∙ e
subst-LeavesProcs fault e h = tt
subst-LeavesProcs (yield k) e h = tt

bind-LeavesProcs :
    {A B : Type 0} (ps : ℕ → Proc) (o : Outcome A) (f : A → M B)
    → LeavesProcs ps o
    → ((a : A) (k : Kernel) → k.procs ≡ ps → LeavesProcs ps (f a k))
    → LeavesProcs ps
        (elim o as (λ _. Outcome B) [ ok a k ↦ f a k | fault ↦ fault | yield k ↦ yield k ])
bind-LeavesProcs ps (ok a k) f s rest = rest a k s
bind-LeavesProcs ps fault f s rest = tt
bind-LeavesProcs ps (yield k) f s rest = tt

when-LeavesProcs :
    (ps : ℕ → Proc) (b : Bool) (m : M (Unit {0})) (k : Kernel)
    → k.procs ≡ ps
    → LeavesProcs ps (m k)
    → LeavesProcs ps (when b m k)
when-LeavesProcs ps true m k e h = h
when-LeavesProcs ps false m k e h = e

from_option-LeavesProcs :
    {A : Type 0} (ps : ℕ → Proc) (o : Option A) (k : Kernel)
    → k.procs ≡ ps
    → LeavesProcs ps (from_option o k)
from_option-LeavesProcs ps none k e = tt
from_option-LeavesProcs ps (some a) k e = e

time_hook-LeavesProcs :
    (proc : Option ℕ) (node : Ptr) (cap : Cap) (k : Kernel)
    → LeavesProcs k.procs (time_hook proc node cap k)
unfolding time_hook
time_hook-LeavesProcs proc node cap k =
    bind-LeavesProcs k.procs
      (from_option
        (Sched.update k.schedule (is_deleted k.heap node) (Time.get_hartid cap) (Time.get_free cap)
          (Time.get_end cap) (pid_of k proc))
        k)
      _ (from_option-LeavesProcs k.procs _ k refl) (λ s k' e. refl)

channel_hook-LeavesProcs :
    (proc : Option ℕ) (node : Ptr) (channel : ℕ) (k : Kernel)
    → LeavesProcs k.procs (channel_hook proc node channel k)
unfolding channel_hook
channel_hook-LeavesProcs proc node channel k = elim (Bool-cases (is_deleted k.heap node)) [
  | inl gone ↦ rw gone refl
  | inr live ↦
      rw live
        (elim (Bool-cases (ltb channel n_channels)) [ inl lt ↦ rw lt refl | inr ge ↦ rw ge tt ])
]

-- An operation that leaves the processes alone still does when it is conditional.
optional-LeavesProcs :
    (ps : ℕ → Proc) (b : Bool) (m : M (Unit {0}))
    → ((k : Kernel) → LeavesProcs k.procs (m k))
    → (k : Kernel) → k.procs ≡ ps
    → LeavesProcs ps (when b m k)
optional-LeavesProcs ps b m h k e = when-LeavesProcs ps b m k e (subst-LeavesProcs (m k) e (h k))

cap_update_hook-LeavesProcs :
    (proc : Option ℕ) (node : Ptr) (cap : Cap) (k : Kernel)
    → LeavesProcs k.procs (cap_update_hook proc node cap k)
unfolding cap_update_hook
cap_update_hook-LeavesProcs proc node cap k =
    let ps = k.procs in
    bind-LeavesProcs ps (when (is_type cap CapType.time) (time_hook proc node cap) k) _
      (optional-LeavesProcs ps _ _ (time_hook-LeavesProcs proc node cap) k refl)
      (λ _ k' e.
        bind-LeavesProcs ps
          (when (is_type cap CapType.receiver) (channel_hook proc node (Receiver.get_channel cap))
            k')
          _ (optional-LeavesProcs ps _ _ (channel_hook-LeavesProcs proc node _) k' e)
          (λ _ k'' e'. optional-LeavesProcs ps _ _ (channel_hook-LeavesProcs proc node _) k'' e'))

on_heap-LeavesProcs :
    (op : Heap → Option (Heap × Bool)) (k : Kernel) → LeavesProcs k.procs (on_heap op k)
on_heap-LeavesProcs op k = made (op k.heap)
  where
    made :
        (o : Option (Heap × Bool))
        → LeavesProcs k.procs (elim o as (λ _. Outcome Bool) [
          | none ↦ fault
          | some (h, b) ↦ ok b (record k { heap = h })
        ])
    made none = tt
    made (some (h, b)) = refl

-- A move between processes changes nodes, the schedule and the receivers only.
pub interprocess_move-LeavesProcs :
    (src_proc src_cidx dest_proc dest_cidx : ℕ) (k : Kernel)
    → LeavesProcs k.procs (interprocess_move src_proc src_cidx dest_proc dest_cidx k)
unfolding interprocess_move
interprocess_move-LeavesProcs src_proc src_cidx dest_proc dest_cidx k =
    let src = get_cap_node (k.procs src_proc) src_cidx in
    let dest = get_cap_node (k.procs dest_proc) dest_cidx in
    let cap = get_cap k.heap src in
    elim (Bool-cases (is_deleted k.heap src)) [
      | inl empty ↦ rw empty refl
      | inr live ↦ rw live (elim (Bool-cases (is_deleted k.heap dest)) [
        | inr taken ↦ rw taken refl
        | inl free ↦ rw free (
            bind-LeavesProcs k.procs (cap_update_hook (some dest_proc) src cap k) _
              (cap_update_hook-LeavesProcs (some dest_proc) src cap k)
              (λ _ k' e.
                bind-LeavesProcs k.procs (on_heap (λ h. CapNode.move rounds h cap src dest) k') _
                  (subst-LeavesProcs _ e
                    (on_heap-LeavesProcs (λ h. CapNode.move rounds h cap src dest) k'))
                  (λ b k'' e'. e')))
      ])
    ]
