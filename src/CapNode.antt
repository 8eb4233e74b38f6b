-- ===== src/CapNode.antt =====
-- inc/cap_node.h: capabilities in circular doubly linked lists. A node is named by its address, and
-- the heap gives the contents of every node. Each access of the source is one access of the heap;
-- a loop that tries an atomic update again takes fuel, and `none` is a loop that has not ended.
pub mod Ring
pub mod Forest
pub mod Steps
use separation_kernel.Prelude.{
  ℕ, zero, suc, Bool, true, false, not, Option, none, some, ◌==◌, if◌then◌else◌,
}
use separation_kernel.Cap.{Cap, null_cap}

-- The address of a node; 0 is `NULL`.
abbrev pub Ptr : Type 0
Ptr = ℕ

abbrev pub null : Ptr
null = 0

pub record CapNode : Type 0 where
  pub prev : Ptr
  pub next : Ptr
  pub cap : Cap

abbrev pub Heap : Type 0
Heap = Ptr → CapNode

-- The heap after the node at `p` was written.
unfoldable pub write : Heap → Ptr → CapNode → Heap
write h p n q = if q == p then n else h q

abbrev pub set_prev : Heap → Ptr → Ptr → Heap
set_prev h p v = write h p (record (h p) { prev = v })

abbrev pub set_next : Heap → Ptr → Ptr → Heap
set_next h p v = write h p (record (h p) { next = v })

abbrev pub set_cap : Heap → Ptr → Cap → Heap
set_cap h p c = write h p (record (h p) { cap = c })

unfoldable pub is_deleted : Heap → Ptr → Bool
is_deleted h cn = (h cn).prev == null

unfoldable pub get_cap : Heap → Ptr → Cap
unfolding is_deleted
get_cap h cn = if is_deleted h cn then null_cap else (h cn).cap

-- `compare_and_set(&p->prev, expected, desired)`.
unfoldable pub compare_and_set_prev : Heap → Ptr → Ptr → Ptr → Heap × Bool
unfolding write
compare_and_set_prev h p expected desired =
    if (h p).prev == expected then (set_prev h p desired, true) else (h, false)

-- The loop of `cap_node_delete2`: it ends with the node behind the deleted one.
unfoldable pub relink : ℕ → Heap → (node prev : Ptr) → Option (Heap × Ptr)
unfolding compare_and_set_prev
relink zero h node prev = none
relink (suc fuel) h node prev =
    let next = (h node).next in
    let (h', done) = compare_and_set_prev h next node prev in
    let again = relink fuel h' node prev in if done then some (h', next) else again

unfoldable pub delete2 : ℕ → Heap → (node prev : Ptr) → Option (Heap × Bool)
unfolding compare_and_set_prev relink
delete2 fuel h node prev =
    let (h', claimed) = compare_and_set_prev h node prev null in
    if not claimed then some (h', false) else elim (relink fuel h' node prev) [
      | none ↦ none
      | some (g, next) ↦ some (set_next g prev next, true)
    ]

unfoldable pub delete : ℕ → Heap → Ptr → Option (Heap × Bool)
unfolding delete2
delete zero h node = none
delete (suc fuel) h node =
    let prev = (h node).prev in
    let attempt = delete2 fuel h node prev in
    elim (prev == null) [
      | true ↦ some (h, false)
      | false ↦ elim attempt [
        | none ↦ none
        | some (g, true) ↦ some (g, true)
        | some (g, false) ↦ delete fuel g node
      ]
    ]

-- The loop of `cap_node_insert`, with the `next` that was read before.
unfoldable pub link : ℕ → Heap → (node prev next : Ptr) → Option (Heap × Bool)
unfolding compare_and_set_prev
link zero h node prev next = none
link (suc fuel) h node prev next =
    let g = set_next h node next in
    let (g', done) = compare_and_set_prev g next prev node in
    let again = link fuel g' node prev (g' prev).next in
    if (h prev).prev == null
    then some (h, false)
    else if done
    then some (set_prev (set_next g' prev node) node prev, true)
    else again

-- `none` is also the failed assertion that the node is not in a list yet.
unfoldable pub insert : ℕ → Heap → Cap → (node prev : Ptr) → Option (Heap × Bool)
unfolding link
insert fuel h cap node prev =
    if not ((h node).prev == null)
    then none
    else let g = set_cap h node cap in link fuel g node prev (g prev).next

unfoldable pub move : ℕ → Heap → Cap → (src_node dest_node : Ptr) → Option (Heap × Bool)
move fuel h cap src_node dest_node = elim (insert fuel h cap dest_node src_node) [
  | none ↦ none
  | some (g, false) ↦ some (g, false)
  | some (g, true) ↦ delete fuel g src_node
]
