-- ===== src/Kernel/Runs.antt =====
-- How a call runs, one operation after the other.
use separation_kernel.Prelude.{◌≡◌, refl, ◌∙◌, Bool, true, false, Option, some}
use separation_kernel.Kernel.{Kernel, Outcome, ok, fault, yield, M, ◌>>=◌, ◌>>◌, when, on_heap}
use separation_kernel.CapNode.{Heap}

pub bind-ok :
    {A B : Type 0} (m : M A) (f : A → M B) {k k' : Kernel} {a : A}
    → m k ≡ ok a k'
    → (m >>= f) k ≡ f a k'
bind-ok m f {k} {k'} {a} e = rw (e, ◌>>=◌) refl

-- A conditional operation that has no effect when it is run.
pub when-skip :
    (b : Bool) (m : M (Unit {0})) {k : Kernel} → (b ≡ true → m k ≡ ok tt k) → when b m k ≡ ok tt k
when-skip true m h = h refl
when-skip false m h = refl

pub on_heap-ok :
    (op : Heap → Option (Heap × Bool)) {k : Kernel} {h : Heap} {b : Bool}
    → op k.heap ≡ some (h, b)
    → on_heap op k ≡ ok b (record k { heap = h })
on_heap-ok op e = rw (e, on_heap) refl

pub bind-fault :
    {A B : Type 0} (m : M A) (f : A → M B) {k : Kernel} → m k ≡ fault → (m >>= f) k ≡ fault
bind-fault m f e = rw (e, ◌>>=◌) refl

-- Two operations that end, with what follows them.
pub seq-ok :
    {B : Type 0} (m n : M (Unit {0})) (f : M B) (k : Kernel) {k' : Kernel}
    → (m >> n) k ≡ ok tt k'
    → (m >> (n >> f)) k ≡ f k'
seq-ok {B} m n f k {k'} e = after (m k) ∙ bind-ok (m >> n) (λ _. f) e
  where
    after :
        (o : Outcome (Unit {0}))
        → elim o as (λ _. Outcome B) [ ok _ k1 ↦ (n >> f) k1 | fault ↦ fault | yield k1 ↦ yield k1 ]
          ≡ elim (elim o as (λ _. Outcome (Unit {0})) [
            | ok _ k1 ↦ n k1
            | fault ↦ fault
            | yield k1 ↦ yield k1
          ]) [ ok _ k1 ↦ f k1 | fault ↦ fault | yield k1 ↦ yield k1 ]
    after (ok _ k1) = refl
    after fault = refl
    after (yield k1) = refl
