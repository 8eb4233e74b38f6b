-- ===== src/Tests/Nodes.antt =====
-- Capability nodes: a ring of the sentinel 1 and the node 2, and the free nodes.
use separation_kernel.Prelude.{
  ◌≡◌, ◌≢◌, refl, true, false, some, [], ◌∷◌, ◌==◌, if◌then◌else◌, arith,
}
use separation_kernel.Cap.{Cap, null_cap}
use separation_kernel.CapNode.{Ptr, null, CapNode, Heap, insert, delete}
use separation_kernel.CapNode.Ring.{has, IsRing}
use separation_kernel.CapNode.Ring.Insert.{insert-IsRing}
use separation_kernel.CapNode.Ring.Delete.{delete-IsRing}

abbrev node_of : (prev next : Ptr) → CapNode
node_of prev next = record { prev = prev; next = next; cap = null_cap }

abbrev two_nodes : Heap
two_nodes p = if p == 1 then node_of 2 2 else if p == 2 then node_of 1 1 else node_of 0 0

abbrev some_cap : Cap
some_cap = record { word0 = 0x0100080010000802; word1 = 0 }

two_nodes-IsRing : IsRing two_nodes 1 (2 ∷ [])
two_nodes-IsRing = record { chain = ground arith; distinct = ground arith; not_null = refl }

three_ne : 3 ≢ null
three_ne = ground arith

insert-IsRing_example :
    (g : Heap) × (insert 1 two_nodes some_cap 3 2 ≡ some (g, true))
    × IsRing g 1 (2 ∷ 3 ∷ [])
    × ((g 3).cap ≡ some_cap)
    × ((q : Ptr) → q ≢ 3 → (g q).cap ≡ (two_nodes q).cap)
    × ((q : Ptr) → has q (1 ∷ 2 ∷ []) ≡ false → q ≢ 3 → g q ≡ two_nodes q)
insert-IsRing_example = insert-IsRing 1 2 3 [] [] some_cap 0 two_nodes-IsRing refl three_ne

delete-IsRing_example :
    (g : Heap) × (delete 2 two_nodes 2 ≡ some (g, true))
    × IsRing g 1 []
    × ((g 2).prev ≡ null)
    × ((q : Ptr) → (g q).cap ≡ (two_nodes q).cap)
    × ((q : Ptr) → has q (1 ∷ 2 ∷ []) ≡ false → g q ≡ two_nodes q)
delete-IsRing_example = delete-IsRing 1 2 [] [] 0 two_nodes-IsRing
