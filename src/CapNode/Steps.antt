-- ===== src/CapNode/Steps.antt =====
-- What the operations do to a heap whose links agree, node by node.
use separation_kernel.Prelude.{ℕ, suc, ◌≡◌, ◌≢◌, true, some, ◌==◌, if◌then◌else◌, arith}
use separation_kernel.Cap.{Cap}
use separation_kernel.CapNode.{
  Ptr, null, Heap, write, set_prev, set_next, set_cap, delete2, delete, insert,
}

-- The links at a live node agree with those of its neighbours.
pub record IsLinked (h : Heap) (p : Ptr) : Type 0 where
  pub live : (h p).prev ≢ null
  pub forward : (h (h p).prev).next ≡ p
  pub backward : (h (h p).next).prev ≡ p

-- The heap with `node` taken out of its list.
abbrev pub unlinked : Heap → Ptr → Heap
unlinked h node q = record {
  prev = if q == node then null else if q == (h node).next then (h node).prev else (h q).prev;
  next = if q == (h node).prev then (h node).next else (h q).next;
  cap = (h q).cap;
}

-- The heap with `node` put behind `prev`.
abbrev pub linked : Heap → Cap → (node prev : Ptr) → Heap
linked h cap node prev q = record {
  prev = if q == node then prev else if q == (h prev).next then node else (h q).prev;
  next = if q == node then (h prev).next else if q == prev then node else (h q).next;
  cap = if q == node then cap else (h q).cap;
}

module _ {h : Heap} {node : Ptr} (ok : IsLinked h node) (others : (h node).next ≢ node) where
  -- One round of each loop is enough.
  pub delete2-unlinked :
      (fuel : ℕ)
      → (g : Heap) × (delete2 (suc fuel) h node (h node).prev ≡ some (g, true))
        × ((q : Ptr) → g q ≡ unlinked h node q)
  unfolding delete2
  delete2-unlinked fuel = (
    set_next (set_prev (set_prev h node null) (h node).next (h node).prev) (h node).prev
        (h node).next,
    ground (arith, ok.backward),
    λ q. unfold write in ground (arith, ok.backward, ok.live, ok.forward),
  )

  pub delete-unlinked :
      (fuel : ℕ)
      → (g : Heap) × (delete (suc (suc fuel)) h node ≡ some (g, true))
        × ((q : Ptr) → g q ≡ unlinked h node q)
  unfolding delete
  delete-unlinked fuel =
      let (g, run, same) = delete2-unlinked fuel in (g, ground (arith, ok.live, run), same)

-- The heap as the stores of `cap_node_insert` leave it.
abbrev insert_stores : Heap → Cap → (node prev : Ptr) → Heap
insert_stores h cap node prev =
    let g = set_cap h node cap in
    let next = (g prev).next in
    set_prev (set_next (set_prev (set_next g node next) next node) prev node) node prev

module _ {h : Heap} {node prev : Ptr} (cap : Cap) (ok : IsLinked h prev)
    (fresh : (h node).prev ≡ null) where
  pub insert-linked :
      (fuel : ℕ)
      → (g : Heap) × (insert (suc fuel) h cap node prev ≡ some (g, true))
        × ((q : Ptr) → g q ≡ linked h cap node prev q)
  unfolding insert
  insert-linked fuel = (
    insert_stores h cap node prev,
    ground (arith, ok.backward, ok.live),
    λ q. unfold write in ground (arith, ok.backward, ok.live),
  )
