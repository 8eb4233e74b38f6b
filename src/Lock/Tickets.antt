-- ===== src/Lock/Tickets.antt =====
-- inc/lock.h: the tickets of the harts in a queue.
use separation_kernel.Prelude.{
  ℕ, ◌+◌, ◌%◌, ◌^◌, ◌≤◌, ◌<◌, ◌≡◌, ◌≢◌, inl, inr, refl, ◌∙◌, true, false, Option, none, some, List,
  [], ◌∷◌, ◌++◌, ◌==◌, Bool-cases, ==→eq, arith,
}
use separation_kernel.CapNode.Ring.{has, Distinct, has-append}
use separation_kernel.Print.{length}
use separation_kernel.Lock.{Use, idle, spinning, inside, next32}

-- The ticket that a hart holds.
abbrev pub ticket : Use → Option ℕ
ticket idle = none
ticket (spinning t) = some t
ticket (inside t) = some t

-- The harts of a queue have tickets that follow each other, from `t` on.
abbrev pub Tickets : (ℕ → Use) → (t : ℕ) → List ℕ → Type 0
Tickets harts t [] = Unit {0}
Tickets harts t (h ∷ q) = (ticket (harts h) ≡ some t) × Tickets harts (next32 t) q

-- The ticket behind those of a queue.
abbrev pub after : (t : ℕ) → List ℕ → ℕ
after t [] = t
after t (h ∷ q) = after (next32 t) q

pub Tickets-frame :
    (f g : ℕ → Use) (t : ℕ) (q : List ℕ)
    → ((h : ℕ) → has h q ≡ true → ticket (g h) ≡ ticket (f h))
    → Tickets f t q
    → Tickets g t q
Tickets-frame f g t [] same tickets = tt
Tickets-frame f g t (h ∷ q) same (at_h, rest) = (
  same h (ground arith) ∙ at_h,
  Tickets-frame f g (next32 t) q (λ i e. same i (ground arith)) rest,
)

pub Tickets-append :
    (f : ℕ → Use) (t : ℕ) (q : List ℕ) (h : ℕ)
    → Tickets f t q
    → ticket (f h) ≡ some (after t q)
    → Tickets f t (q ++ h ∷ [])
Tickets-append f t [] h tickets e = (e, tt)
Tickets-append f t (x ∷ q) h (at_x, rest) e = (at_x, Tickets-append f (next32 t) q h rest e)

pub after-append : (t : ℕ) (q : List ℕ) (h : ℕ) → after t (q ++ h ∷ []) ≡ next32 (after t q)
after-append t [] h = refl
after-append t (x ∷ q) h = after-append (next32 t) q h

pub Distinct-append : (q : List ℕ) (h : ℕ) → Distinct q → has h q ≡ false → Distinct (q ++ h ∷ [])
Distinct-append [] h d out = (refl, tt)
Distinct-append (x ∷ q) h d out =
    (ground (arith, has-append x q (h ∷ [])), Distinct-append q h d.1 (ground arith))

-- Far from the end of 32-bit words no hart behind the first has the ticket that is served.
pub Tickets-behind :
    (f : ℕ → Use) (now d : ℕ) (q : List ℕ) (h : ℕ)
    → now < 2 ^ 32
    → 0 < d
    → d + length q ≤ 2 ^ 32
    → Tickets f ((now + d) % 2 ^ 32) q
    → has h q ≡ true
    → ticket (f h) ≢ some now
Tickets-behind f now d [] h word pos few tickets i same = cc
Tickets-behind f now d (x ∷ q) h word pos few (at_x, rest) i same = elim (Bool-cases (h == x)) [
  | inl e ↦
      let here : h ≡ x = ==→eq h x e in
      let equal : some now ≡ some ((now + d) % 2 ^ 32) = cc in ground arith
  | inr other ↦
      let shifted : next32 ((now + d) % 2 ^ 32) ≡ (now + (d + 1)) % 2 ^ 32 = omega arith in
      Tickets-behind f now (d + 1) q h word (omega arith) (ground arith) (rw shifted at rest)
        (ground arith) same
]

pub Tickets-holder :
    (f : ℕ → Use) (t : ℕ) (q : List ℕ) (h : ℕ)
    → Tickets f t q
    → has h q ≡ true
    → ticket (f h) ≢ none
Tickets-holder f t [] h tickets i e = cc
Tickets-holder f t (x ∷ q) h (at_x, rest) i e = elim (Bool-cases (h == x)) [
  | inl same ↦ let here : h ≡ x = ==→eq h x same in let lost : some t ≡ none = cc in ground arith
  | inr other ↦ Tickets-holder f (next32 t) q h rest (ground arith) e
]
