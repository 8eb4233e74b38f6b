-- ===== src/Syscall/Settled/Caps.antt =====
-- The calls on the caller's own capabilities keep the invariant of the kernel.
use separation_kernel.Prelude.{
  ℕ, suc, ◌*◌, ◌≡◌, inl, inr, refl, ap, ◌∙◌, Option, true, false, none, some, Bool-cases, ◌==◌,
  ==→eq, arith,
}
use separation_kernel.Config.{n_proc, n_caps}
use separation_kernel.Cap.{Cap, get_type}
use separation_kernel.Cap.CapType
use separation_kernel.Cap.Update.{revoke_update_cap, revoked}
use separation_kernel.Cap.Update.Revoke.{
  revoke-IsValid, revoke_update_cap-revoked, revoke_update_cap-channels,
}
use separation_kernel.CapNode.{Ptr, null, Heap, is_deleted, get_cap, set_cap, write}
use separation_kernel.CapNode
use separation_kernel.CapNode.Forest.{Rings}
use separation_kernel.Proc.{get_cap_node}
use separation_kernel.Proc.Reg
use separation_kernel.Kernel.{
  Kernel, ok, pure, ◌>>◌, ◌>>=◌, from_option, on_heap, rounds, current_proc, put_reg, set_proc,
}
use separation_kernel.Kernel.ErrorCode
use separation_kernel.Kernel.Runs.{bind-ok, bind-fault, on_heap-ok}
use separation_kernel.Kernel.Sound.{IsSound, Settled}
use separation_kernel.Kernel.Sound.Parts.{
  with_tables, with_preemption, get_cap_node-IsTableNode, get_cap-IsValid,
}
use separation_kernel.Kernel.Sound.Moved.{move-IsMoved}
use separation_kernel.Kernel.Sound.Nodes.{delete-IsSound, set_cap-IsSound}
use separation_kernel.Syscall.Hook.{cap_update_hook}
use separation_kernel.Syscall.Caps.{
  syscall_read_cap, syscall_move_cap, syscall_delete_cap, syscall_revoke_cap, set_preemption,
  put_cap, revoke_children, list_bound,
}
use separation_kernel.Syscall.Caps.Revoke.{interruptible, syscall_revoke_cap-held}
use separation_kernel.Syscall.Settled.Steps.{ok-Settled, fault-Settled, set_reg-IsSound}
use separation_kernel.Syscall.Settled.Hook.{
  cap_update_hook-Hooked, cap_update_hook-exhausted, slice_cases,
}
use separation_kernel.Syscall.Settled.Move.{live_of, free_of, get_cap-live}

module _ {tables : Ptr} {rs : Rings} {k : Kernel} (sound : IsSound tables rs k) where
  pub interruptible-IsSound : IsSound tables rs (interruptible k)
  unfolding interruptible
  interruptible-IsSound =
      with_preemption (set_reg-IsSound sound k.current Reg.a0 ErrorCode.preempted) true

  pub syscall_read_cap-Settled : (cidx : ℕ) → Settled tables k.heap (syscall_read_cap cidx k)
  unfolding syscall_read_cap put_reg
  syscall_read_cap-Settled cidx =
      (rs, set_reg-IsSound (set_reg-IsSound sound k.current Reg.a1 _) k.current Reg.a2 _)

  pub syscall_move_cap-Settled :
      (src_cidx dest_cidx : ℕ) → Settled tables k.heap (syscall_move_cap src_cidx dest_cidx k)
  unfolding syscall_move_cap
  syscall_move_cap-Settled src_cidx dest_cidx =
      let src = get_cap_node (current_proc k) src_cidx in
      let dest = get_cap_node (current_proc k) dest_cidx in
      let cap = get_cap k.heap src in
      elim (Bool-cases (is_deleted k.heap src)) [
        | inl empty ↦ rw empty (rs, sound)
        | inr live ↦ rw live (elim (Bool-cases (is_deleted k.heap dest)) [
          | inr taken ↦ rw taken (rs, sound)
          | inl free ↦
              let (h, run, sound', _) =
                move-IsMoved sound src dest cap 0 (live_of k.heap src live)
                  (get_cap_node-IsTableNode sound k.current src_cidx sound.current)
                  (free_of k.heap dest free)
                  (get_cap_node-IsTableNode sound k.current dest_cidx sound.current)
                  (get_cap-IsValid sound src live) in
              rw free (
                ok-Settled k.heap
                  (bind-ok (on_heap (λ g. CapNode.move rounds g cap src dest)) _ {k = k}
                    (on_heap-ok (λ g. CapNode.move rounds g cap src dest) run))
                  sound')
        ])
      ]

  pub syscall_delete_cap-Settled : (cidx : ℕ) → Settled tables k.heap (syscall_delete_cap cidx k)
  unfolding syscall_delete_cap
  syscall_delete_cap-Settled cidx =
      let node = get_cap_node (current_proc k) cidx in
      let cap = get_cap k.heap node in
      elim (Bool-cases (is_deleted k.heap node)) [
        | inl empty ↦ rw empty (rs, sound)
        | inr live ↦
            let (h, run, sound', same) =
              delete-IsSound sound node 0 (live_of k.heap node live)
                (get_cap_node-IsTableNode sound k.current cidx sound.current) in
            rw live (elim (slice_cases cap) [
              | inl some_time ↦
                  let (t, r, hook, frame, owned) =
                    cap_update_hook-Hooked sound' none tt node cap (get_cap-IsValid sound node live)
                      some_time in
                  ok-Settled k.heap
                    (bind-ok (on_heap (λ g. CapNode.delete rounds g node)) _ {k = k}
                        (on_heap-ok (λ g. CapNode.delete rounds g node) run)
                      ∙ bind-ok (cap_update_hook none node cap) _ hook)
                    (with_tables sound' t r frame owned)
              | inr spent ↦
                  fault-Settled tables k.heap
                    (bind-ok (on_heap (λ g. CapNode.delete rounds g node)) _ {k = k}
                        (on_heap-ok (λ g. CapNode.delete rounds g node) run)
                      ∙ bind-fault (cap_update_hook none node cap) _
                          (cap_update_hook-exhausted (record k { heap = h }) none node cap spent))
                    node (inl (rw (get_cap-live k.heap node live) at spent))
            ])
      ]

revoke_children-empty :
    (fuel : ℕ) (node : Ptr) (cap : Cap) (k : Kernel)
    → is_deleted k.heap node ≡ true
    → revoke_children (suc fuel) node cap k ≡ ok tt k
unfolding revoke_children
revoke_children-empty fuel node cap k gone = rw gone refl

-- A revocation keeps the invariant: of a capability in use since it is refused, and else since
-- there is nothing in the list to revoke. Of channels the update fails an assertion.
module _ {tables : Ptr} {rs : Rings} {k : Kernel} (sound : IsSound tables rs k) where
  pub syscall_revoke_cap-Settled : (cidx : ℕ) → Settled tables k.heap (syscall_revoke_cap cidx k)
  unfolding syscall_revoke_cap put_reg put_cap set_preemption set_proc interruptible is_deleted
  syscall_revoke_cap-Settled cidx =
      let node = get_cap_node (current_proc k) cidx in
      let cap = (k.heap node).cap in
      elim (Bool-cases (is_deleted k.heap node)) [
        | inr live ↦
            ok-Settled k.heap (syscall_revoke_cap-held k cidx live) (interruptible-IsSound sound)
        | inl gone ↦
            let ends =
              bind-ok (revoke_children list_bound node cap)
                (λ _.
                  set_preemption false
                  >> (from_option (revoke_update_cap cap) >>= λ updated.
                      put_cap node updated
                      >> (cap_update_hook (some k.current) node cap >> pure ErrorCode.ok)))
                {k = interruptible k}
                (revoke_children-empty (n_proc * n_caps) node cap (interruptible k) gone) in
            let stored =
              set_cap-IsSound (with_preemption (interruptible-IsSound sound) false) node
                (revoked cap) (revoke-IsValid cap (sound.caps node)) in
            elim (Bool-cases (get_type cap == CapType.channels)) [
              | inl channels ↦
                  let kind = ==→eq _ _ channels in
                  rw gone (
                    fault-Settled {A = ℕ} tables k.heap
                      (ends ∙ (rw (revoke_update_cap-channels cap kind) refl)) node
                      (inr (gone, kind)))
              | inr other ↦
                  let updates =
                    revoke_update_cap-revoked cap (sound.caps node) (λ e. ground arith) in
                  let takes =
                    bind-ok (from_option (revoke_update_cap cap))
                      (λ updated.
                        put_cap node updated
                        >> (cap_update_hook (some k.current) node cap >> pure ErrorCode.ok))
                      {k = record (interruptible k) { preemption = false }}
                      (ap
                        (λ (o : Option Cap).
                          from_option o (record (interruptible k) { preemption = false }))
                        updates) in
                  elim (slice_cases cap) [
                    | inl some_time ↦
                        let (t, r, hook, frame, owned) =
                          cap_update_hook-Hooked stored (some k.current) sound.current node cap
                            (sound.caps node) some_time in
                        rw gone (
                          ok-Settled {A = ℕ} k.heap
                            (ends
                              ∙ takes
                              ∙ bind-ok (cap_update_hook (some k.current) node cap)
                                  (λ _. pure ErrorCode.ok) hook)
                            (with_tables stored t r frame owned))
                    | inr spent ↦ rw gone (
                        fault-Settled {A = ℕ} tables k.heap
                          (ends
                            ∙ takes
                            ∙ bind-fault (cap_update_hook (some k.current) node cap) _
                                (cap_update_hook-exhausted _ (some k.current) node cap spent))
                          node (inl spent))
                  ]
            ]
      ]
