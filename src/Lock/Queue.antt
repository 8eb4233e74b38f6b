-- ===== src/Lock/Queue.antt =====
-- inc/lock.h: the harts that use a lock stand in a queue.
use separation_kernel.Prelude.{
  ℕ, ◌^◌, ◌≤◌, ◌<◌, ◌≡◌, ◌≢◌, inl, inr, refl, sym, ap, subst, ◌∙◌, true, false, none, some, List,
  [], ◌∷◌, ◌++◌, ◌==◌, Bool-cases, ==→eq, arith,
}
use separation_kernel.Config.{max_hartid}
use separation_kernel.CapNode.Ring.{has, Distinct, has-append}
use separation_kernel.Print.{length}
use separation_kernel.Lock.{
  idle, inside, System, set_hart, next32, take_ticket, lock_release, Step, takes, enters, releases,
  init_lock, Reach, unused, step,
}
use separation_kernel.Lock.Counting.{Distinct-length}
use separation_kernel.Lock.Tickets.{
  ticket, Tickets, after, Tickets-frame, Tickets-append, after-append, Distinct-append,
  Tickets-behind, Tickets-holder,
}

pub record IsQueue (s : System) (q : List ℕ) : Type 0 where
  pub word : s.lock.now_serving < 2 ^ 32
  pub tickets : Tickets s.harts s.lock.now_serving q
  pub last : s.lock.next_ticket ≡ after s.lock.now_serving q
  pub distinct : Distinct q
  pub harts : (h : ℕ) → has h q ≡ true → h ≤ max_hartid
  pub outside : (h : ℕ) → has h q ≡ false → s.harts h ≡ idle
  pub served : (h t : ℕ) → s.harts h ≡ inside t → t ≡ s.lock.now_serving

module _ {s : System} {q : List ℕ} (queue : IsQueue s q) where
  queue-length : length q ≤ 5
  queue-length = Distinct-length 5 q queue.distinct (λ h i. let le = queue.harts h i in omega arith)

  waits-has : (h : ℕ) → s.harts h ≢ idle → has h q ≡ true
  waits-has h busy = elim (Bool-cases (has h q)) [
    | inl i ↦ i
    | inr out ↦ absurd (busy (queue.outside h out))
  ]

  idle-outside : (h : ℕ) → s.harts h ≡ idle → has h q ≡ false
  idle-outside h free = elim (Bool-cases (has h q)) [
    | inl i ↦ absurd (Tickets-holder s.harts s.lock.now_serving q h queue.tickets i (rw free refl))
    | inr out ↦ out
  ]

-- The hart whose ticket is served is the first.
pub served-first :
    {s : System} (q : List ℕ)
    → IsQueue s q
    → (h : ℕ) → ticket (s.harts h) ≡ some s.lock.now_serving
    → (rest : List ℕ) × (q ≡ h ∷ rest)
served-first [] queue h e = let free = queue.outside h refl in absurd (ground arith)
served-first {s} (x ∷ q) queue h e = elim (Bool-cases (h == x)) [
  | inl same ↦ (q, rw (==→eq h x same) refl)
  | inr other ↦
      let found =
        waits-has queue h (λ free. let lost : ticket (s.harts h) ≡ none = rw free refl in cc) in
      let few = queue-length queue in
      absurd (
        Tickets-behind s.harts s.lock.now_serving 1 q h queue.word (omega arith) (ground arith)
          queue.tickets.1 (ground arith) e)
]

-- What a step does to the queue: a hart joins at its end, its first hart leaves, or neither.
pub data Change : List ℕ → List ℕ → Type 0 where
  joins : (q : List ℕ) (h : ℕ) → Change q (q ++ h ∷ [])
  stays : (q : List ℕ) → Change q q
  leaves : (h : ℕ) (q : List ℕ) → Change (h ∷ q) q

abbrev Changes : List ℕ → System → Type 0
Changes q s = (q' : List ℕ) × IsQueue s q' × Change q q'

abbrev pub head : ℕ → List ℕ → ℕ
head a [] = a
head a (x ∷ xs) = x

-- No second hart is inside.
other_inside :
    {s : System} {h : ℕ} {q : List ℕ}
    → IsQueue s (h ∷ q)
    → (t : ℕ) → s.harts h ≡ inside t
    → (i u : ℕ) → i ≢ h
    → s.harts i ≢ inside u
other_inside {s} {h} {q} queue t within i u ne at_i =
    let now = queue.served i u at_i in
    let (rest, shape) = served-first (h ∷ q) queue i (rw (at_i, now) refl) in
    let same : h ≡ i = ap (head h) shape in ne (sym same)

released-Changes :
    {s : System} (h : ℕ) (q : List ℕ)
    → IsQueue s (h ∷ q)
    → (t : ℕ) → s.harts h ≡ inside t
    → Changes (h ∷ q) (record { lock = lock_release s.lock; harts = set_hart s h idle })
unfolding lock_release
released-Changes {s} h q queue t within = (
  q,
  record {
    word = omega arith;
    tickets =
        Tickets-frame s.harts _ (next32 s.lock.now_serving) q
          (λ i e. let apart = queue.distinct.0 in ground arith) queue.tickets.1;
    last = queue.last;
    distinct = queue.distinct.1;
    harts = λ i e. queue.harts i (ground arith);
    outside = λ i e. ground (arith, queue.outside i);
    served = λ i u e. absurd (other_inside queue t within i u (ground arith) (ground arith));
  },
  leaves h q,
)

-- Every access of the lock by a hart acts on the queue of the harts as on a queue, first come, first
-- served: a ticket puts the hart at the end, only the first hart gets the lock, and its release
-- takes it out.
pub Step-Changes : (s s' : System) (q : List ℕ) → IsQueue s q → Step s s' → Changes q s'
unfolding take_ticket lock_release
Step-Changes s _ q queue (takes h le free) =
    let out = idle-outside queue h free in
    (
      q ++ h ∷ [],
      record {
        word = queue.word;
        tickets =
            Tickets-append _ s.lock.now_serving q h
              (Tickets-frame s.harts _ s.lock.now_serving q (λ i e. ground (arith, out))
                queue.tickets)
              (ground (arith, queue.last));
        last = ap next32 queue.last ∙ sym (after-append s.lock.now_serving q h);
        distinct = Distinct-append q h queue.distinct out;
        harts = λ i e. ground (arith, queue.harts i, has-append i q (h ∷ []));
        outside = λ i e. ground (arith, queue.outside i, has-append i q (h ∷ []));
        served = λ i t e. ground (arith, queue.served i t);
      },
      joins q h,
    )
Step-Changes s _ q queue (enters h t waits now) = (
  q,
  record {
    word = queue.word;
    tickets = Tickets-frame s.harts _ s.lock.now_serving q (λ i e. ground arith) queue.tickets;
    last = queue.last;
    distinct = queue.distinct;
    harts = queue.harts;
    outside = λ i e. ground (arith, queue.outside i e);
    served = λ i u e. ground (arith, queue.served i u);
  },
  stays q,
)
Step-Changes s _ q queue (releases h t within) =
    let now = queue.served h t within in
    let (rest, shape) = served-first q queue h (rw (within, now) refl) in
    subst (λ x. Changes x (record { lock = lock_release s.lock; harts = set_hart s h idle }))
      (sym shape) (released-Changes h rest (subst (λ x. IsQueue s x) shape queue) t within)

init-IsQueue : IsQueue (record { lock = init_lock; harts = λ h. idle }) []
init-IsQueue = record {
  word = omega arith;
  tickets = tt;
  last = refl;
  distinct = tt;
  harts = λ h i. cc;
  outside = λ h i. refl;
  served = λ h t e. ground arith;
}

-- The queue of every state that the lock gets to.
pub Reach-IsQueue : {s : System} → Reach s → (q : List ℕ) × IsQueue s q
Reach-IsQueue unused = ([], init-IsQueue)
Reach-IsQueue (step {s} {s'} before move) =
    let (q, queue) = Reach-IsQueue before in
    let (q', queue', _) = Step-Changes s s' q queue move in (q', queue')
