-- ===== src/CapNode/Forest/Insert.antt =====
-- `cap_node_insert` on the lists of the kernel.
use mathlib.Core.Path.{subst}
use separation_kernel.Prelude.{
  ℕ, suc, ◌≡◌, ◌≢◌, refl, sym, true, false, some, ◌||◌, ◌&&◌, List, [], ◌∷◌, ◌++◌, ◌==◌,
  if◌then◌else◌, arith, Bool-cases, inl, inr, ==→eq,
}
use separation_kernel.Cap.{Cap}
use separation_kernel.CapNode.{Ptr, null, Heap, insert}
use separation_kernel.CapNode.Steps.{IsLinked, linked, insert-linked}
use separation_kernel.CapNode.Ring.{has, IsRing, has-append, IsRing-live}
use separation_kernel.CapNode.Ring.Rotate.{IsRing-rotate}
use separation_kernel.CapNode.Ring.Insert.{IsRing-linked}
use separation_kernel.CapNode.Forest.Defs.{
  Rings, nodes, AreRings, IsForest, IsRing-frame, IsForest-fresh, IsForest-IsLinked,
  IsForest-not_null, IsRing-apart,
}

-- The node goes right behind `p`, in the list that holds it.
abbrev pub put_behind : (p node : Ptr) → List Ptr → List Ptr
put_behind p node [] = []
put_behind p node (x ∷ xs) = if x == p then x ∷ node ∷ xs else x ∷ put_behind p node xs

abbrev pub put : (p node : Ptr) → Rings → Rings
put p node [] = []
put p node ((s, xs) ∷ rs) = (s, if s == p then node ∷ xs else put_behind p node xs) ∷ put p node rs

put_behind-absent : (p node : Ptr) (xs : List Ptr) → has p xs ≡ false → put_behind p node xs ≡ xs
put_behind-absent p node [] h = refl
put_behind-absent p node (x ∷ xs) h = ground (arith, put_behind-absent p node xs)

has-put_behind :
    (q p node : Ptr) (xs : List Ptr)
    → has q (put_behind p node xs) ≡ (has q xs || (has p xs && (q == node)))
has-put_behind q p node [] = refl
has-put_behind q p node (x ∷ xs) = ground (arith, has-put_behind q p node xs)

has-put :
    (q p node : Ptr) (rs : Rings)
    → has q (nodes (put p node rs)) ≡ (has q (nodes rs) || (has p (nodes rs) && (q == node)))
has-put q p node [] = refl
has-put q p node ((s, xs) ∷ rs) = ground (
  arith,
  has-put q p node rs,
  has-put_behind q p node xs,
  has-append q xs (nodes rs),
  has-append p xs (nodes rs),
  has-append q (if s == p then node ∷ xs else put_behind p node xs) (nodes (put p node rs)),
)

-- The first node equal to `p` of a list, with what `put_behind` makes of the list.
put_behind-split :
    (p node : Ptr) (xs : List Ptr)
    → has p xs ≡ true
    → (front : List Ptr) × (back : List Ptr) × (xs ≡ front ++ p ∷ back)
      × (put_behind p node xs ≡ front ++ p ∷ node ∷ back)
put_behind-split p node [] i = cc
put_behind-split p node (x ∷ xs) i = elim (Bool-cases (p == x)) [
  | inl here ↦ let e = ==→eq p x here in ([], xs, ground (arith), ground arith)
  | inr there ↦
      let (front, back, e, f) = put_behind-split p node xs (rw there at i) in
      (x ∷ front, back, ground (arith, e), ground (arith, f))
]

module _ (h g : Heap) (p node : Ptr) (cap : Cap) (at_p : IsLinked h p)
    (same : (q : Ptr) → g q ≡ linked h cap node p q) (fresh : (h node).prev ≡ null)
    (ne : node ≢ null) where
  IsRing-put :
      (s : Ptr) (xs : List Ptr)
      → IsRing h s xs
      → IsRing g s (if s == p then node ∷ xs else put_behind p node xs)
  IsRing-put s xs ring = elim (Bool-cases (s == p)) [
    | inl head ↦
        let e = ==→eq s p head in
        rw head (
          subst (λ (a : Ptr). IsRing g a (node ∷ xs)) (sym e)
            (IsRing-linked h g node p cap same xs (rw e at ring) fresh ne))
    | inr not_head ↦ rw not_head (elim (Bool-cases (has p xs)) [
      | inl here ↦
          let (front, back, e, f) = put_behind-split p node xs here in
          let turned = IsRing-rotate front p back (rw e at ring) in
          let at_p' = IsRing-linked h g node p cap same (back ++ s ∷ front) turned fresh ne in
          rw f (IsRing-rotate (node ∷ back) s front at_p')
      | inr gone ↦ rw (put_behind-absent p node xs gone) (
          IsRing-frame h g s xs ring
            (λ q i. ground (arith, same q, IsRing-apart s xs p q ring at_p, IsRing-live ring q i)))
    ])
  ]

  AreRings-put :
      (rs : Rings) → AreRings h rs → has node (nodes rs) ≡ false → AreRings g (put p node rs)
  AreRings-put [] rings out = tt
  AreRings-put ((s, xs) ∷ rs) (ring, apart, rings) out = (
    IsRing-put s xs ring,
    λ q i. ground (
      arith,
      apart q,
      apart p,
      has-put q p node rs,
      has-put_behind q p node xs,
      has-append node xs (nodes rs),
      has-append p xs (nodes rs),
    ),
    AreRings-put rs rings (ground (arith, has-append node xs (nodes rs))),
  )

-- A live node of the lists of the kernel takes a node that is in no list right behind it: the
-- insertion succeeds in the first round of its loop, and the lists are as before but for that node.
pub insert-IsForest :
    {h : Heap} (rs : Rings) (p node : Ptr) (cap : Cap) (fuel : ℕ)
    → IsForest h rs
    → (h p).prev ≢ null
    → (h node).prev ≡ null
    → node ≢ null
    → (g : Heap) × (insert (suc fuel) h cap node p ≡ some (g, true))
      × IsForest g (put p node rs)
      × ((q : Ptr) → g q ≡ linked h cap node p q)
insert-IsForest {h} rs p node cap fuel forest live fresh ne =
    let at_p = IsForest-IsLinked forest p live in
    let (g, run, same) = insert-linked cap at_p fresh fuel in
    (
      g,
      run,
      record {
        rings =
            AreRings-put h g p node cap at_p same fresh ne rs forest.rings
              (IsForest-fresh forest node fresh);
        listed = λ q lives. ground (
          arith,
          same q,
          has-put q p node rs,
          forest.listed q,
          forest.listed p live,
          IsForest-not_null forest p live,
          at_p.backward,
        );
      },
      same,
    )
