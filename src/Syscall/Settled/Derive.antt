-- ===== src/Syscall/Settled/Derive.antt =====
-- `syscall_derive_cap` keeps the invariant of the kernel, and never faults.
use separation_kernel.Prelude.{ℕ, ◌<◌, ◌≡◌, inl, inr, ◌∙◌, true, false, some, arith, Bool-cases}
use separation_kernel.Cap.{Cap, IsWord, get_type}
use separation_kernel.Cap.CapType
use separation_kernel.Cap.Time
use separation_kernel.Cap.Derivation.{can_derive}
use separation_kernel.Cap.Derivation.Rules.{
  Derivation, memory_memory, memory_pmp, time_time, channels_channels, channels_receiver,
  channels_server, receiver_sender, server_client, supervisor_supervisor, can_derive_iff,
}
use separation_kernel.Cap.Update.Derive.{derive-IsValid}
use separation_kernel.Cap.Valid.Defs.{IsValid}
use separation_kernel.CapNode.{Ptr, null, Heap, is_deleted, get_cap, set_cap, write}
use separation_kernel.CapNode
use separation_kernel.CapNode.Forest.{Rings}
use separation_kernel.Proc.{get_cap_node}
use separation_kernel.Kernel.{
  Kernel, pure, ◌>>=◌, ◌>>◌, on_heap, rounds, current_proc, put_reg, set_proc,
}
use separation_kernel.Kernel.Runs.{bind-ok, on_heap-ok}
use separation_kernel.Kernel.Sound.{IsSound, Settled}
use separation_kernel.Kernel.Sound.Parts.{
  with_tables, with_preemption, get_cap_node-IsTableNode, get_cap-IsValid,
}
use separation_kernel.Kernel.Sound.Nodes.{insert-IsSound, set_cap-IsSound}
use separation_kernel.Syscall.Hook.{cap_update_hook, code_of}
use separation_kernel.Syscall.Caps.{syscall_derive_cap, set_preemption, put_cap}
use separation_kernel.Syscall.Caps.Revoke.{interruptible}
use separation_kernel.Syscall.Settled.Steps.{ok-Settled}
use separation_kernel.Syscall.Settled.Hook.{cap_update_hook-Hooked}
use separation_kernel.Syscall.Settled.Move.{live_of, free_of}
use separation_kernel.Syscall.Settled.Caps.{interruptible-IsSound}

Derivation-some_time :
    {p c : Cap} → Derivation p c → get_type c ≡ CapType.time → Time.get_free c < Time.get_end c
Derivation-some_time (memory_memory tp tc h0 h1 h2 h3 h4 h5 h6) e = absurd (omega arith)
Derivation-some_time (memory_pmp tp tc h0 h1 h2) e = absurd (omega arith)
Derivation-some_time (time_time tp tc h0 h1 h2 h3 h4) e = omega arith
Derivation-some_time (channels_channels tp tc h0 h1 h2 h3) e = absurd (omega arith)
Derivation-some_time (channels_receiver tp tc h0 h1 h2) e = absurd (omega arith)
Derivation-some_time (channels_server tp tc h0 h1 h2) e = absurd (omega arith)
Derivation-some_time (receiver_sender tp tc h0 h1) e = absurd (omega arith)
Derivation-some_time (server_client tp tc h0 h1) e = absurd (omega arith)
Derivation-some_time (supervisor_supervisor tp tc h0 h1 h2 h3) e = absurd (omega arith)

set_cap-prev : (h : Heap) (p q : Ptr) (cap : Cap) → (set_cap h p cap q).prev ≡ (h q).prev
unfolding write
set_cap-prev h p q cap = ground arith

module _ {tables : Ptr} {rs : Rings} {k : Kernel} (sound : IsSound tables rs k) where
  -- The derivation that the checks have let through.
  allowed-Settled :
      (src_cidx dest_cidx : ℕ) (new : Cap) (parent : Cap) (h : Heap)
      → is_deleted k.heap (get_cap_node (current_proc k) src_cidx) ≡ false
      → is_deleted k.heap (get_cap_node (current_proc k) dest_cidx) ≡ true
      → IsValid parent
      → IsValid new
      → (get_type new ≡ CapType.time → Time.get_free new < Time.get_end new)
      → Settled tables h (
          (set_preemption false
              >> (put_cap (get_cap_node (current_proc k) src_cidx) parent
                  >> (cap_update_hook (some k.current) (get_cap_node (current_proc k) src_cidx) new
                      >> (on_heap (λ g.
                            CapNode.insert rounds g new
                              (get_cap_node (current_proc k) dest_cidx)
                              (get_cap_node (current_proc k) src_cidx))
                          >>= λ inserted. pure (code_of inserted)))))
            (interruptible k))
  unfolding set_preemption put_cap interruptible set_proc
  allowed-Settled src_cidx dest_cidx new parent h live free valid valid' some_time =
      let src = get_cap_node (current_proc k) src_cidx in
      let dest = get_cap_node (current_proc k) dest_cidx in
      let stored =
        set_cap-IsSound (with_preemption (interruptible-IsSound sound) false) src parent valid in
      let (t, r, hook, frame, owned) =
        cap_update_hook-Hooked stored (some k.current) sound.current src new valid' some_time in
      let (h', run, sound', _) =
        insert-IsSound (with_tables stored t r frame owned) src dest new 1
          (rw (set_cap-prev k.heap src src parent) (live_of k.heap src live))
          (set_cap-prev k.heap src dest parent ∙ free_of k.heap dest free)
          (get_cap_node-IsTableNode sound k.current dest_cidx sound.current) valid' in
      ok-Settled {A = ℕ} h
        (bind-ok (cap_update_hook (some k.current) src new) _ hook
          ∙ bind-ok (on_heap (λ g. CapNode.insert rounds g new dest src)) _
              (on_heap-ok (λ g. CapNode.insert rounds g new dest src) run))
        sound'

  pub syscall_derive_cap-Settled :
      (src_cidx dest_cidx : ℕ) (new : Cap)
      → IsWord new
      → Settled tables k.heap (syscall_derive_cap src_cidx dest_cidx new.word0 new.word1 k)
  unfolding syscall_derive_cap put_reg set_preemption interruptible
  syscall_derive_cap-Settled src_cidx dest_cidx new word =
      let src = get_cap_node (current_proc k) src_cidx in
      let dest = get_cap_node (current_proc k) dest_cidx in
      let cap = get_cap k.heap src in
      elim (Bool-cases (is_deleted k.heap src)) [
        | inl empty ↦ rw empty (rs, interruptible-IsSound sound)
        | inr live ↦ rw live (elim (Bool-cases (is_deleted k.heap dest)) [
          | inr taken ↦ rw taken (rs, interruptible-IsSound sound)
          | inl free ↦ rw free (elim (Bool-cases (can_derive cap new)) [
            | inr refused ↦ rw refused (rs, interruptible-IsSound sound)
            | inl allowed ↦
                let (parent, update, valid, valid') =
                  derive-IsValid cap new (get_cap-IsValid sound src live) word allowed in
                rw (allowed, update)
                  (allowed-Settled src_cidx dest_cidx new parent k.heap live free valid valid'
                    (Derivation-some_time ((can_derive_iff cap new).0 allowed)))
          ])
        ])
      ]
