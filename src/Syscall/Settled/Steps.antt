-- ===== src/Syscall/Settled/Steps.antt =====
-- Rules for the operations that calls are made of.
use separation_kernel.Prelude.{ℕ, ◌≡◌, refl, Bool, true, false, if◌then◌else◌}
use separation_kernel.CapNode.{Ptr, Heap}
use separation_kernel.CapNode.Forest.{Rings}
use separation_kernel.Proc.{set_reg}
use separation_kernel.Kernel.{Kernel, Outcome, ok, fault, yield, M, set_proc, put_reg, put_state}
use separation_kernel.Kernel.Sound.{IsSound, IsFaulty, Settled}
use separation_kernel.Kernel.Sound.Parts.{set_proc-IsSound}
use separation_kernel.Syscall.Basic.{sched_yield}

-- A call that settles for every sound kernel, whatever capabilities it holds.
abbrev pub Settles : {A : Type 0} → Ptr → M A → Type 0
Settles tables m =
    (h : Heap) (rs : Rings) (k : Kernel) → IsSound tables rs k → Settled tables h (m k)

-- What follows an operation that has settled.
pub bind-Settled :
    {A B : Type 0} (tables : Ptr) (h : Heap) (o : Outcome A) (f : A → M B)
    → Settled tables h o
    → ((a : A) (k : Kernel) (rs : Rings)
        → o ≡ ok a k
        → IsSound tables rs k
        → Settled tables h (f a k))
    → Settled tables h
        (elim o as (λ _. Outcome B) [ ok a k ↦ f a k | fault ↦ fault | yield k ↦ yield k ])
bind-Settled tables h (ok a k) f s rest = rest a k s.0 refl s.1
bind-Settled tables h fault f s rest = s
bind-Settled tables h (yield k) f s rest = s

module _ {tables : Ptr} {rs : Rings} {k : Kernel} (sound : IsSound tables rs k) where
  pub set_reg-IsSound :
      (i reg value : ℕ) → IsSound tables rs (set_proc k i (set_reg (k.procs i) reg value))
  unfolding set_reg
  set_reg-IsSound i reg value = set_proc-IsSound sound i _ refl refl

  pub put_reg-Settled : (h : Heap) (i reg value : ℕ) → Settled tables h (put_reg i reg value k)
  unfolding put_reg
  put_reg-Settled h i reg value = (rs, set_reg-IsSound i reg value)

  pub put_state-Settled : (h : Heap) (i state : ℕ) → Settled tables h (put_state i state k)
  unfolding put_state
  put_state-Settled h i state = (rs, set_proc-IsSound sound i _ refl refl)

  pub sched_yield-Settled : (A : Type 0) (h : Heap) → Settled {A = A} tables h (sched_yield k)
  unfolding sched_yield
  sched_yield-Settled A h = (rs, set_proc-IsSound sound k.current _ refl refl)

pub ok-Settled :
    {A : Type 0} {tables : Ptr} {rs : Rings} {k : Kernel} (h : Heap) {o : Outcome A} {a : A}
    → o ≡ ok a k
    → IsSound tables rs k
    → Settled tables h o
ok-Settled {rs} h e sound = rw e (rs, sound)

pub fault-Settled :
    {A : Type 0} (tables : Ptr) (h : Heap) {o : Outcome A}
    → o ≡ fault
    → (p : Ptr) → IsFaulty h p
    → Settled tables h o
fault-Settled tables h e p spent = rw e (p, spent)

-- Both branches of a conditional call.
pub if-Settled :
    {A : Type 0} (tables : Ptr) (h : Heap) (k : Kernel) (b : Bool) (m n : M A)
    → (b ≡ true → Settled tables h (m k))
    → (b ≡ false → Settled tables h (n k))
    → Settled tables h ((if b then m else n) k)
if-Settled tables h k true m n on_true on_false = on_true refl
if-Settled tables h k false m n on_true on_false = on_false refl
