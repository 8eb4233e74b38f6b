-- ===== src/CapNode/Forest/Defs.antt =====
-- Rings side by side, and where a node is put into them or taken out of them.
use separation_kernel.Prelude.{
  ◌≡◌, ◌≢◌, refl, ap, sym, ◌∙◌, Bool, true, false, ◌||◌, List, [], ◌∷◌, ◌++◌, ◌==◌, arith,
  Bool-cases, inl, inr, ==→eq,
}
use separation_kernel.CapNode.{Ptr, null, Heap}
use separation_kernel.CapNode.Steps.{IsLinked}
use separation_kernel.CapNode.Ring.{
  has, IsRing, has-append, Chain-frame, IsRing-live, IsRing-IsLinked, IsRing-outside,
}
use separation_kernel.CapNode.Ring.Rotate.{IsRing-rotate}

-- A sentinel and the nodes behind it.
abbrev pub Rings : Type 0
Rings = List (Ptr × List Ptr)

abbrev pub nodes : Rings → List Ptr
nodes [] = []
nodes ((s, xs) ∷ rs) = (s ∷ xs) ++ nodes rs

abbrev pub is_sentinel : Ptr → Rings → Bool
is_sentinel a [] = false
is_sentinel a ((s, xs) ∷ rs) = (a == s) || is_sentinel a rs

abbrev pub AreRings : Heap → Rings → Type 0
AreRings h [] = Unit {0}
AreRings h ((s, xs) ∷ rs) =
    IsRing h s xs × ((q : Ptr) → has q (s ∷ xs) ≡ true → has q (nodes rs) ≡ false) × AreRings h rs

pub record IsForest (h : Heap) (rs : Rings) : Type 0 where
  pub rings : AreRings h rs
  pub listed : (q : Ptr) → (h q).prev ≢ null → has q (nodes rs) ≡ true

-- A list is cut at an address in it.
pub has-split :
    (a : Ptr) (xs : List Ptr)
    → has a xs ≡ true
    → (front : List Ptr) × (back : List Ptr) × (xs ≡ front ++ a ∷ back)
has-split a [] i = cc
has-split a (x ∷ xs) i = elim (Bool-cases (a == x)) [
  | inl here ↦ ([], xs, ap (λ (y : Ptr). y ∷ xs) (sym (==→eq a x here)))
  | inr there ↦
      let (front, back, e) = has-split a xs (rw there at i) in
      (x ∷ front, back, ap (λ (l : List Ptr). x ∷ l) e)
]

-- The ring read from a node in it, and what is in it then.
pub IsRing-at :
    {h : Heap} (s : Ptr) (xs : List Ptr) (p : Ptr)
    → has p (s ∷ xs) ≡ true
    → IsRing h s xs
    → (ys : List Ptr) × IsRing h p ys × ((q : Ptr) → has q (p ∷ ys) ≡ has q (s ∷ xs))
IsRing-at {h} s xs p i ring = elim (Bool-cases (p == s)) [
  | inl head ↦ let e = ==→eq p s head in (xs, rw e ring, λ q. rw e refl)
  | inr later ↦
      let (front, back, e) = has-split p xs (rw later at i) in
      (
        back ++ s ∷ front,
        IsRing-rotate front p back (rw e at ring),
        λ q. rw e (ground (arith, has-append q back (s ∷ front), has-append q front (p ∷ back))),
      )
]

pub IsRing-IsLinked_at :
    {h : Heap} (s : Ptr) (xs : List Ptr) (p : Ptr)
    → has p (s ∷ xs) ≡ true
    → IsRing h s xs
    → IsLinked h p
IsRing-IsLinked_at s xs p i ring =
    let (ys, turned, _) = IsRing-at s xs p i ring in IsRing-IsLinked turned

pub AreRings-IsLinked :
    (h : Heap) (rs : Rings) (p : Ptr) → AreRings h rs → has p (nodes rs) ≡ true → IsLinked h p
AreRings-IsLinked h [] p r i = cc
AreRings-IsLinked h ((s, xs) ∷ rs) p r i = elim (Bool-cases (has p (s ∷ xs))) [
  | inl here ↦ IsRing-IsLinked_at s xs p here r.0
  | inr there ↦ AreRings-IsLinked h rs p r.2 (ground (arith, has-append p xs (nodes rs)))
]

pub IsRing-frame :
    (h g : Heap) (s : Ptr) (xs : List Ptr)
    → IsRing h s xs
    → ((q : Ptr) → has q (s ∷ xs) ≡ true → ((g q).next ≡ (h q).next) × ((g q).prev ≡ (h q).prev))
    → IsRing g s xs
IsRing-frame h g s xs ring same = record {
  chain =
      Chain-frame h g s xs s ring.chain (λ a i. (same a i).0)
        (λ a i. (same a (ground (arith, has-append a xs (s ∷ [])))).1);
  distinct = ring.distinct;
  not_null = ring.not_null;
}

-- A linked node that is not in a ring has no neighbour in it.
pub IsRing-apart :
    {h : Heap} (s : Ptr) (xs : List Ptr) (p q : Ptr)
    → IsRing h s xs
    → IsLinked h p
    → has p (s ∷ xs) ≡ false
    → has q (s ∷ xs) ≡ true
    → (q ≢ p) × (q ≢ (h p).next) × (q ≢ (h p).prev)
IsRing-apart {h} s xs p q ring linked out i =
    let (ys, turned, same) = IsRing-at s xs q i ring in
    let (ne, not_next, not_prev) = IsRing-outside turned p (same p ∙ out) in
    (
      ground arith,
      λ e. not_prev (sym linked.backward ∙ ap (λ (a : Ptr). (h a).prev) (sym e)),
      λ e. not_next (sym linked.forward ∙ ap (λ (a : Ptr). (h a).next) (sym e)),
    )

pub AreRings-live :
    (h : Heap) (rs : Rings) (q : Ptr) → AreRings h rs → has q (nodes rs) ≡ true → (h q).prev ≢ null
AreRings-live h [] q r i = cc
AreRings-live h ((s, xs) ∷ rs) q r i = elim (Bool-cases (has q (s ∷ xs))) [
  | inl here ↦ IsRing-live r.0 q here
  | inr there ↦ AreRings-live h rs q r.2 (ground (arith, has-append q xs (nodes rs)))
]

pub AreRings-not_null : (h : Heap) (rs : Rings) → AreRings h rs → has null (nodes rs) ≡ false
AreRings-not_null h [] r = refl
AreRings-not_null h ((s, xs) ∷ rs) r =
    let here = r.0.not_null in
    ground (arith, has-append null xs (nodes rs), AreRings-not_null h rs r.2)

module _ {h : Heap} {rs : Rings} (forest : IsForest h rs) where
  -- A node that is deleted is in no list.
  pub IsForest-fresh : (q : Ptr) → (h q).prev ≡ null → has q (nodes rs) ≡ false
  IsForest-fresh q fresh = elim (Bool-cases (has q (nodes rs))) [
    | inl i ↦ absurd (AreRings-live h rs q forest.rings i fresh)
    | inr out ↦ out
  ]

  pub IsForest-IsLinked : (p : Ptr) → (h p).prev ≢ null → IsLinked h p
  IsForest-IsLinked p live = AreRings-IsLinked h rs p forest.rings (forest.listed p live)

  pub IsForest-not_null : (p : Ptr) → (h p).prev ≢ null → p ≢ null
  IsForest-not_null p live e =
      let listed = forest.listed p live in
      let out = AreRings-not_null h rs forest.rings in
      let same = ap (λ (a : Ptr). has a (nodes rs)) e in cc

AreRings-frame :
    (h g : Heap) (rs : Rings)
    → AreRings h rs
    → ((q : Ptr) → ((g q).next ≡ (h q).next) × ((g q).prev ≡ (h q).prev))
    → AreRings g rs
AreRings-frame h g [] r same = tt
AreRings-frame h g ((s, xs) ∷ rs) r same =
    (IsRing-frame h g s xs r.0 (λ q _. same q), r.1, AreRings-frame h g rs r.2 same)

-- What a heap holds beside the links does not matter.
pub IsForest-frame :
    (h g : Heap) (rs : Rings)
    → IsForest h rs
    → ((q : Ptr) → ((g q).next ≡ (h q).next) × ((g q).prev ≡ (h q).prev))
    → IsForest g rs
IsForest-frame h g rs forest same = record {
  rings = AreRings-frame h g rs forest.rings same;
  listed = λ q live. forest.listed q (ground (arith, same q));
}
