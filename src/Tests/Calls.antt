-- ===== src/Tests/Calls.antt =====
-- System calls of a process 1 whose table starts at the node 2. The node 2 holds a supervisor of the
-- processes 2 and 3, and is in a ring with the sentinel 1.
use separation_kernel.Prelude.{◌≡◌, ◌≢◌, refl, true, false, none, ◌==◌, if◌then◌else◌, arith}
use separation_kernel.Cap.{Cap, null_cap, is_type, get_type_lem}
use separation_kernel.Cap.CapType
use separation_kernel.CapNode.{Ptr, Heap, CapNode, is_deleted, get_cap}
use separation_kernel.CapNode.Steps.{IsLinked, unlinked}
use separation_kernel.Proc.{get_cap_node}
use separation_kernel.ProcState.Code
use separation_kernel.Kernel.{Kernel, ok}
use separation_kernel.Kernel.ErrorCode
use separation_kernel.Syscall.Caps.{syscall_delete_cap}
use separation_kernel.Syscall.Caps.Delete.{IsSlice, syscall_delete_cap-held}

abbrev node_of : (prev next : Ptr) → Cap → CapNode
node_of prev next cap = record { prev = prev; next = next; cap = cap }

abbrev supervisor : Cap
supervisor = record { word0 = 0x02040209; word1 = 0 }

abbrev state : Kernel
state = record {
  procs = λ i. record {
    regs = λ r. 0;
    pid = i;
    state = Code.running;
    dest_cidx = 0;
    cap_table = 2;
    client = 0;
  };
  heap = λ p.
      if p == 1
      then node_of 2 2 null_cap
      else if p == 2
      then node_of 1 1 supervisor
      else node_of 0 0 null_cap;
  schedule = λ q h. 0;
  receivers = λ c i. none;
  current = 1;
  preemption = false;
}

abbrev node : Ptr
node = get_cap_node (state.procs 1) 0

node-IsLinked : IsLinked state.heap node
unfolding get_cap_node
node-IsLinked = record { live = ground arith; forward = refl; backward = refl }

node_others : (state.heap node).next ≢ node
unfolding get_cap_node
node_others = ground arith

not_time : is_type (get_cap state.heap node) CapType.time ≡ true → IsSlice (get_cap state.heap node)
unfolding get_cap_node get_cap is_deleted is_type
not_time e = ground (arith, get_type_lem supervisor)

syscall_delete_cap-held_example :
    (h : Heap) × (syscall_delete_cap 0 state ≡ ok ErrorCode.ok (record state { heap = h }))
    × ((q : Ptr) → h q ≡ unlinked state.heap node q)
syscall_delete_cap-held_example = syscall_delete_cap-held state 0 node-IsLinked node_others not_time
