-- ===== src/Tests/Slices.antt =====
-- Process 1, whose node 2 holds the major frame of hart 1 in a ring with the sentinel 1, derives the
-- quanta 0 to 16 into its node 3, or moves the capability there.
use separation_kernel.Prelude.{
  ◌≡◌, ◌≢◌, [], ◌∷◌, ◌++◌, refl, true, false, none, some, inr, ◌==◌, if◌then◌else◌, arith,
}
use separation_kernel.Cap.{Cap, null_cap, get_type, get_type_lem}
use separation_kernel.Cap.CapType
use separation_kernel.Cap.Time
use separation_kernel.Cap.Derivation.{can_derive}
use separation_kernel.Cap.Update.{derive_update_cap}
use separation_kernel.Cap.Valid.Defs.{IsValid}
use separation_kernel.CapNode.{Ptr, Heap, CapNode, is_deleted, get_cap, set_cap}
use separation_kernel.CapNode.Steps.{IsLinked, linked}
use separation_kernel.CapNode.Ring.{IsRing}
use separation_kernel.Sched
use separation_kernel.Sched.Table.{IsPid}
use separation_kernel.Proc.{get_cap_node}
use separation_kernel.ProcState.Code
use separation_kernel.Kernel.{Kernel, ok}
use separation_kernel.Kernel.ErrorCode
use separation_kernel.Syscall.Caps.{syscall_derive_cap}
use separation_kernel.Syscall.Caps.Delete.{IsSlice}
use separation_kernel.Syscall.Caps.Derive.{IsEntered, derived, syscall_derive_cap-IsEntered}
use separation_kernel.Tests.Caps.{
  frame_words, slice, frame_words-IsValid, slice-IsWord, slice-can_derive,
}

abbrev node_of : (prev next : Ptr) → Cap → CapNode
node_of prev next cap = record { prev = prev; next = next; cap = cap }

abbrev state : Kernel
state = record {
  procs = λ i. record {
    regs = λ r. 0;
    pid = i;
    state = Code.running;
    dest_cidx = 0;
    cap_table = 2;
    client = 0;
  };
  heap = λ p.
      if p == 1
      then node_of 2 2 null_cap
      else if p == 2
      then node_of 1 1 frame_words
      else node_of 0 0 null_cap;
  schedule = λ q h. 0;
  receivers = λ c i. none;
  current = 1;
  preemption = false;
}

abbrev src : Ptr
src = get_cap_node (state.procs 1) 0

abbrev dest : Ptr
dest = get_cap_node (state.procs 1) 1

src-IsLinked : IsLinked state.heap src
unfolding get_cap_node
src-IsLinked = record { live = ground arith; forward = refl; backward = refl }

dest_free : (state.heap dest).prev ≡ 0
unfolding get_cap_node
dest_free = refl

held_cap : get_cap state.heap src ≡ frame_words
unfolding get_cap_node get_cap is_deleted
held_cap = refl

held-IsValid : IsValid (get_cap state.heap src)
held-IsValid = rw held_cap frame_words-IsValid

held-can_derive : can_derive (get_cap state.heap src) slice ≡ true
held-can_derive = rw held_cap slice-can_derive

slice_kind : get_type slice ≡ CapType.time
slice_kind = ground (arith, get_type_lem slice)

slice-IsSlice : IsSlice slice
unfolding Time.get_free Time.get_end Time.get_hartid
slice-IsSlice = ground arith

one-IsPid : IsPid 1
one-IsPid = inr (omega arith)

syscall_derive_cap-IsEntered_example :
    (parent : Cap) × (t : Sched.Schedule) × (h : Heap) × (derive_update_cap
        (get_cap state.heap src)
        slice
      ≡ some parent)
    × (syscall_derive_cap 0 1 slice.word0 slice.word1 state ≡ ok ErrorCode.ok (derived state h t))
    × IsEntered state t slice 1
    × ((q : Ptr) → h q ≡ linked (set_cap state.heap src parent) slice dest src q)
syscall_derive_cap-IsEntered_example =
    syscall_derive_cap-IsEntered state 0 1 slice src-IsLinked dest_free held-can_derive held-IsValid
      slice-IsWord slice_kind slice-IsSlice one-IsPid

state-IsRing : IsRing state.heap 1 ([] ++ src ∷ [])
unfolding get_cap_node
state-IsRing = record { chain = ground arith; distinct = ground arith; not_null = refl }

dest_ne : dest ≢ 0
unfolding get_cap_node
dest_ne = ground arith
