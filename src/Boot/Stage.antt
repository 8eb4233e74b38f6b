-- ===== src/Boot/Stage.antt =====
-- The lists of capabilities while the kernel boots: from the sentinels and the nodes that are in
-- use, and those that are still free.
use separation_kernel.Prelude.{
  ℕ, suc, ◌+◌, ◌≤◌, ◌<◌, ◌≡◌, ◌≢◌, inl, inr, refl, sym, ap, ◌∙◌, true, false, some, ◌==◌, List, [],
  ◌∷◌, arith, Bool-cases, ==→eq,
}
use separation_kernel.Config.{n_caps}
use separation_kernel.Cap.{Cap}
use separation_kernel.Cap.Valid.Defs.{IsValid}
use separation_kernel.Cap.Valid.Empty.{null_cap-IsValid}
use separation_kernel.CapNode.{Ptr, null, Heap, write, insert}
use separation_kernel.CapNode.Ring.{has, has-append}
use separation_kernel.CapNode.Forest.{
  Rings, nodes, AreRings, IsForest-IsLinked, IsForest-not_null, IsForest-fresh, IsRing-frame,
}
use separation_kernel.CapNode.Forest.Insert.{put}
use separation_kernel.Sched
use separation_kernel.Kernel.{Kernel}
use separation_kernel.Kernel.Sound.{IsSound, IsTableNode}
use separation_kernel.Kernel.Sound.Parts.{with_heap}
use separation_kernel.Kernel.Sound.Nodes.{insert-IsSound}
use separation_kernel.Boot.{make_sentinel}

-- The kernel as it will be when the schedule is set up.
abbrev pub ready : Kernel → Heap → Kernel
ready k h = record k { heap = h; schedule = Sched.init k.schedule }

-- With the lists `rs` in place, the nodes of the first table from number `n` on and the sentinels
-- `ss` are free, and the nodes before are in use with the capabilities of `want`.
pub record IsStage (tables : Ptr) (want : ℕ → Cap) (k : Kernel) (rs : Rings) (n : ℕ) (ss : List Ptr)
    (h : Heap) : Type 0 where
  pub sound : IsSound tables rs (ready k h)
  pub free : (i : ℕ) → n ≤ i → i < n_caps → (h (tables + i)).prev ≡ null
  pub spare : (q : Ptr) → has q ss ≡ true → (h q).prev ≡ null
  pub outside : (q : Ptr) → IsTableNode tables q → has q ss ≡ false
  pub room : n ≤ n_caps
  pub held : (i : ℕ) → i < n → ((h (tables + i)).cap ≡ want i) × ((h (tables + i)).prev ≢ null)

AreRings-frame_on :
    (h g : Heap) (rs : Rings)
    → AreRings h rs
    → ((q : Ptr) → has q (nodes rs) ≡ true → ((g q).next ≡ (h q).next) × ((g q).prev ≡ (h q).prev))
    → AreRings g rs
AreRings-frame_on h g [] r same = tt
AreRings-frame_on h g ((s, xs) ∷ rs) r same = (
  IsRing-frame h g s xs r.0 (λ q i. same q (ground (arith, has-append q xs (nodes rs)))),
  r.1,
  AreRings-frame_on h g rs r.2 (λ q i. same q (ground (arith, has-append q xs (nodes rs)))),
)

module _ {tables : Ptr} {want : ℕ → Cap} {k : Kernel} {rs : Rings} {n : ℕ} {ss : List Ptr}
    {h : Heap} where
  -- A free sentinel is made the head of an empty list.
  pub sentinel-IsStage :
      (s : Ptr)
      → s ≢ null
      → has s ss ≡ false
      → IsStage tables want k rs n (s ∷ ss) h
      → IsStage tables want k ((s, []) ∷ rs) n ss (make_sentinel h s)
        × ((make_sentinel h s s).prev ≢ null)
  unfolding write
  sentinel-IsStage s ne apart stage =
      let fresh = IsForest-fresh stage.sound.forest s (stage.spare s (ground arith)) in
      (
        record {
          sound =
              with_heap stage.sound ((s, []) ∷ rs) (make_sentinel h s)
                (record {
                  rings = (
                    record {
                      chain = (ground arith, ground arith);
                      distinct = (refl, tt);
                      not_null = ground arith;
                    },
                    λ q i. ground (arith, fresh),
                    AreRings-frame_on h (make_sentinel h s) rs stage.sound.forest.rings
                        (λ q i. (ground (arith, fresh), ground (arith, fresh))),
                  );
                  listed = λ q live. ground (arith, stage.sound.forest.listed q);
                })
                (λ q w. ground (arith, stage.sound.apart q w, stage.outside q w))
                (λ q. elim (Bool-cases (q == s)) [
                  | inl e ↦ rw e null_cap-IsValid
                  | inr other ↦ rw other (stage.sound.caps q)
                ]);
          free = λ i lo hi. ground (arith, stage.free i lo hi, stage.outside (tables + i));
          spare = λ q i. ground (arith, stage.spare q);
          outside = λ q w. ground (arith, stage.outside q w);
          room = stage.room;
          held = λ i lo.
              let there =
                stage.outside (tables + i) (omega (arith, stage.room), omega (arith, stage.room)) in
              let before = stage.held i lo in (ground arith, ground arith);
        },
        ground arith,
      )

  -- The next node of the table is put behind a sentinel.
  pub insert-IsStage :
      (s : Ptr) (cap : Cap) (fuel : ℕ)
      → (h s).prev ≢ null
      → n < n_caps
      → cap ≡ want n
      → IsValid cap
      → IsStage tables want k rs n ss h
      → (g : Heap) × (insert (suc fuel) h cap (tables + n) s ≡ some (g, true))
        × IsStage tables want k (put s (tables + n) rs) (n + 1) ss g
        × ((g s).prev ≢ null)
  insert-IsStage s cap fuel live lt wanted valid stage =
      let forest = stage.sound.forest in
      let positive = stage.sound.tables_not_null in
      let linked_at = IsForest-IsLinked forest s live in
      let ne = IsForest-not_null forest s live in
      let fresh = stage.free n (omega arith) lt in
      let (g, run, sound, same) =
        insert-IsSound stage.sound s (tables + n) cap fuel live fresh (ground arith) valid in
      (
        g,
        run,
        record {
          sound = sound;
          free = λ i lo hi.
              ground (arith, same (tables + i), stage.free i (omega arith) hi, linked_at.backward);
          spare = λ q i.
              ground
                (arith, same q, stage.spare q i, stage.outside (tables + n), linked_at.backward);
          outside = stage.outside;
          room = omega arith;
          held = λ i lo. elim (Bool-cases (i == n)) [
            | inl last ↦
                let here : tables + i ≡ tables + n = ground arith in
                let got : (g (tables + i)).cap ≡ cap = ground (arith, same (tables + i)) in
                let is_want : cap ≡ want i = wanted ∙ ap want (sym (==→eq i n last)) in
                (got ∙ is_want, ground (arith, same (tables + i), ne))
            | inr more ↦
                let before = stage.held i (ground arith) in
                let kept : (g (tables + i)).cap ≡ (h (tables + i)).cap =
                  ground (arith, same (tables + i)) in
                (kept ∙ before.0, ground (arith, same (tables + i), before.1))
          ];
        },
        ground (arith, same s, linked_at.backward),
      )
