-- ===== src/Boot/Lists.antt =====
-- The lists of the first capabilities are made.
use separation_kernel.Prelude.{
  ℕ, zero, suc, ◌+◌, ◌≤◌, ◌<◌, ◌≡◌, ◌≢◌, refl, ap, sym, ◌∙◌, true, false, List, ◌∷◌, arith,
}
use separation_kernel.Config.{n_caps, n_quantum, min_hartid, max_hartid}
use separation_kernel.Cap.{Cap}
use separation_kernel.Cap.Time
use separation_kernel.Cap.Valid.Defs.{IsValid}
use separation_kernel.CapNode.{Ptr, null, Heap}
use separation_kernel.CapNode
use separation_kernel.CapNode.Ring.{has}
use separation_kernel.CapNode.Forest.{Rings}
use separation_kernel.Kernel.{Kernel, ok, M, ◌>>◌, rounds, on_heap}
use separation_kernel.Kernel.Runs.{bind-ok, on_heap-ok}
use separation_kernel.Prelude.Words.{◌&&&◌}
use separation_kernel.Prelude.Bits.{bit_and_mask_below}
use separation_kernel.Boot.{mk_time_asserts, put_sentinel, add_cap, init_slices}
use separation_kernel.Boot.RootCaps.{time-IsValid}
use separation_kernel.Boot.Stage.{IsStage, sentinel-IsStage, insert-IsStage}

-- How far the boot has got, when an operation has come back with the next free node.
abbrev pub Added :
    (tables : Ptr) (want : ℕ → Cap) (k : Kernel) (n : ℕ) (ss : List Ptr) → M Ptr → Heap → Type 0
Added tables want k n ss m h =
    (rs : Rings) × (g : Heap) × (m (record k { heap = h })
      ≡ ok (tables + n) (record k { heap = g }))
    × IsStage tables want k rs n ss g

module _ {tables : Ptr} {want : ℕ → Cap} {k : Kernel} {rs : Rings} {n : ℕ} {ss : List Ptr}
    {h : Heap} where
  add_cap-Added :
      (s : Ptr) (cap : Cap)
      → (h s).prev ≢ null
      → n < n_caps
      → cap ≡ want n
      → IsValid cap
      → IsStage tables want k rs n ss h
      → (rs' : Rings) × (g : Heap) × (add_cap cap (tables + n) s (record k { heap = h })
          ≡ ok (tables + (n + 1)) (record k { heap = g }))
        × IsStage tables want k rs' (n + 1) ss g
        × ((g s).prev ≢ null)
  unfolding add_cap
  add_cap-Added s cap live lt wanted valid stage =
      let (g, run, stage', live') = insert-IsStage s cap 1 live lt wanted valid stage in
      let next : tables + n + 1 ≡ tables + (n + 1) = omega arith in
      (
        _,
        g,
        bind-ok (on_heap (λ f. CapNode.insert rounds f cap (tables + n) s)) _
              {k = record k { heap = h }}
              (on_heap-ok (λ f. CapNode.insert rounds f cap (tables + n) s) run)
            ∙ ap (λ (a : Ptr). ok a (record k { heap = g })) next,
        stage',
        live',
      )

module _ {tables : Ptr} {want : ℕ → Cap} {k : Kernel} {rs : Rings} {n : ℕ} {ss : List Ptr}
    {h : Heap} where
  -- A list with one capability.
  pub one-Added :
      (s : Ptr) (cap : Cap)
      → s ≢ null
      → has s ss ≡ false
      → n < n_caps
      → cap ≡ want n
      → IsValid cap
      → IsStage tables want k rs n (s ∷ ss) h
      → Added tables want k (n + 1) ss (put_sentinel s >> add_cap cap (tables + n) s) h
  unfolding put_sentinel
  one-Added s cap ne apart lt wanted valid stage =
      let (stage', live) = sentinel-IsStage s ne apart stage in
      let (rs', g, run, stage'', _) = add_cap-Added s cap live lt wanted valid stage' in
      (rs', g, run, stage'')

-- One capability for each hart from `hartid` on.
pub slices-Added :
    {tables : Ptr} {want : ℕ → Cap} {k : Kernel}
    → (left hartid : ℕ) (rs : Rings) (n m : ℕ) (ss : List Ptr) (h : Heap) (s : Ptr)
    → (h s).prev ≢ null
    → m ≡ n + left
    → m ≤ n_caps
    → min_hartid ≤ hartid
    → hartid + left ≤ max_hartid + 1
    → ((j : ℕ) → j < left → want (n + j) ≡ Time.mk (hartid + j) 0 n_quantum 0)
    → IsStage tables want k rs n ss h
    → Added tables want k m ss (init_slices left hartid (tables + n) s) h
unfolding init_slices
slices-Added zero hartid rs n m ss h s live e room lo hi slices stage =
    let same : m ≡ n = omega arith in rw same (rs, h, refl, stage)
slices-Added {tables} {want} {k} (suc left) hartid rs n m ss h s live e room lo hi slices stage =
    let slice = Time.mk hartid 0 n_quantum 0 in
    let none_before : n + 0 ≡ n = omega arith in
    let none_before' : hartid + 0 ≡ hartid = omega arith in
    let first : slice ≡ want n = sym (rw (none_before, none_before') at (slices 0 (omega arith))) in
    let width : hartid &&& 0xff ≡ hartid = bit_and_mask_below 8 hartid (omega arith) in
    let asserted : mk_time_asserts hartid 0 n_quantum 0 ≡ true = ground (arith, width) in
    let (rs', g, run, stage', live') =
      add_cap-Added s slice live (omega arith) first (time-IsValid hartid lo (omega arith)) stage in
    let (rs'', g', run', stage'') =
      slices-Added left (hartid + 1) rs' (n + 1) m ss g s live' (omega arith) room (omega arith)
        (omega arith)
        (λ j lt.
          let at : n + 1 + j ≡ n + (j + 1) = omega arith in
          let hart : hartid + 1 + j ≡ hartid + (j + 1) = omega arith in
          rw (at, hart) (slices (j + 1) (omega arith)))
        stage' in
    (
      rs'',
      g',
      rw asserted (
          bind-ok (add_cap slice (tables + n) s) (λ cn. init_slices left (hartid + 1) cn s)
            {k = record k { heap = h }} run
          ∙ run'),
      stage'',
    )
