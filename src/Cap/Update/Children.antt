-- ===== src/Cap/Update/Children.antt =====
-- Derived capabilities are children, also of what later becomes of the parent.
use separation_kernel.Prelude.{◌≤◌, ◌≡◌, some, true, arith}
use separation_kernel.Cap.Base.{Cap, get_type, IsWord}
use separation_kernel.Cap.CapType
use separation_kernel.Cap.Memory
use separation_kernel.Cap.Time
use separation_kernel.Cap.Channels
use separation_kernel.Cap.Supervisor
use separation_kernel.Cap.Derivation.{is_child, can_derive}
use separation_kernel.Cap.Derivation.Rules.{Derivation, can_derive_iff}
use separation_kernel.Cap.Derivation.ChildRules
use separation_kernel.Cap.Derivation.ChildRules.{Child, is_child_iff}
use separation_kernel.Cap.Update.{derive_update_cap}
use separation_kernel.Cap.Update.Parent.{
  memory_memory_parent, memory_pmp_parent, time_parent, channels_channels_parent,
  channels_receiver_parent, channels_server_parent, receiver_parent, server_parent,
  supervisor_parent,
}
use separation_kernel.Cap.Valid.Defs.{IsValid}

-- What deriving does to a parent: its range stays, and the part that is handed out grows.
record Grown (p p' : Cap) : Type 0 where
  kind : get_type p' ≡ get_type p
  memory :
      get_type p ≡ CapType.memory
      → (Memory.get_begin p' ≡ Memory.get_begin p)
        × (Memory.get_end p' ≡ Memory.get_end p)
        × (Memory.get_rwx p' ≡ Memory.get_rwx p)
        × (Memory.get_free p ≤ Memory.get_free p')
        × (Memory.get_pmp p ≡ 1
            → (Memory.get_pmp p' ≡ 1) × (Memory.get_free p' ≡ Memory.get_free p))
  time :
      get_type p ≡ CapType.time
      → (Time.get_begin p' ≡ Time.get_begin p)
        × (Time.get_hartid p' ≡ Time.get_hartid p)
        × (Time.get_free p ≤ Time.get_free p')
  channels :
      get_type p ≡ CapType.channels
      → (Channels.get_begin p' ≡ Channels.get_begin p)
        × (Channels.get_free p ≤ Channels.get_free p')
  receiver : get_type p ≡ CapType.receiver → p' ≡ p
  server : get_type p ≡ CapType.server → p' ≡ p
  supervisor :
      get_type p ≡ CapType.supervisor
      → (Supervisor.get_begin p' ≡ Supervisor.get_begin p)
        × (Supervisor.get_free p ≤ Supervisor.get_free p')

module _ (p c p' : Cap) (valid : IsValid p) (e : derive_update_cap p c ≡ some p') where
  abbrev w : IsWord p
  w = valid.word

  Derivation-Child : Derivation p c → Child p' c
  unfolding Memory.fields Time.fields Channels.fields Supervisor.fields
  Derivation-Child (Derivation.memory_memory tp tc h0 h1 h2 h3 h4 h5 h6) =
      let parent = memory_memory_parent p c p' w e tp tc in
      ChildRules.memory_memory (ground arith) (ground arith) (ground arith) (ground arith)
        (ground arith)
  Derivation-Child (Derivation.memory_pmp tp tc h0 h1 h2) =
      let parent = memory_pmp_parent p c p' w e tp tc in
      ChildRules.memory_pmp (ground arith) (ground arith) (ground arith) (ground arith)
        (ground arith) (ground arith)
  Derivation-Child (Derivation.time_time tp tc h0 h1 h2 h3 h4) =
      let parent = time_parent p c p' w e tp in
      ChildRules.time_time (ground arith) (ground arith) (ground arith) (ground arith)
        (ground arith)
  Derivation-Child (Derivation.channels_channels tp tc h0 h1 h2 h3) =
      let parent = channels_channels_parent p c p' w e tp tc in
      ChildRules.channels_channels (ground arith) (ground arith) (ground arith) (ground arith)
  Derivation-Child (Derivation.channels_receiver tp tc h0 h1 h2) =
      let parent = channels_receiver_parent p c p' w e tp tc h1 in
      ChildRules.channels_receiver (ground arith) (ground arith) (ground arith) (ground arith)
  Derivation-Child (Derivation.channels_server tp tc h0 h1 h2) =
      let parent = channels_server_parent p c p' w e tp tc h1 in
      ChildRules.channels_server (ground arith) (ground arith) (ground arith) (ground arith)
  Derivation-Child (Derivation.receiver_sender tp tc h0 h1) =
      let parent = receiver_parent p c p' w e tp in
      ChildRules.receiver_sender (ground arith) (ground arith) (ground arith)
  Derivation-Child (Derivation.server_client tp tc h0 h1) =
      let parent = server_parent p c p' w e tp in
      ChildRules.server_client (ground arith) (ground arith) (ground arith)
  Derivation-Child (Derivation.supervisor_supervisor tp tc h0 h1 h2 h3) =
      let parent = supervisor_parent p c p' w e tp in
      ChildRules.supervisor_supervisor (ground arith) (ground arith) (ground arith) (ground arith)

  Derivation-Grown : Derivation p c → Grown p p'
  unfolding Memory.fields Time.fields Channels.fields Supervisor.fields
  Derivation-Grown (Derivation.memory_memory tp tc h0 h1 h2 h3 h4 h5 h6) =
      ground (arith, memory_memory_parent p c p' w e tp tc)
  Derivation-Grown (Derivation.memory_pmp tp tc h0 h1 h2) =
      ground (arith, memory_pmp_parent p c p' w e tp tc)
  Derivation-Grown (Derivation.time_time tp tc h0 h1 h2 h3 h4) =
      ground (arith, time_parent p c p' w e tp)
  Derivation-Grown (Derivation.channels_channels tp tc h0 h1 h2 h3) =
      ground (arith, channels_channels_parent p c p' w e tp tc)
  Derivation-Grown (Derivation.channels_receiver tp tc h0 h1 h2) =
      ground (arith, channels_receiver_parent p c p' w e tp tc h1)
  Derivation-Grown (Derivation.channels_server tp tc h0 h1 h2) =
      ground (arith, channels_server_parent p c p' w e tp tc h1)
  Derivation-Grown (Derivation.receiver_sender tp tc h0 h1) =
      ground (arith, receiver_parent p c p' w e tp)
  Derivation-Grown (Derivation.server_client tp tc h0 h1) =
      ground (arith, server_parent p c p' w e tp)
  Derivation-Grown (Derivation.supervisor_supervisor tp tc h0 h1 h2 h3) =
      ground (arith, supervisor_parent p c p' w e tp)

-- A child stays one.
Child-Grown : (p p' d : Cap) → Grown p p' → Child p d → Child p' d
Child-Grown p p' d g (ChildRules.memory_memory tp td k0 k1 k2) =
    ChildRules.memory_memory (ground (arith, g.memory tp)) (ground (arith, g.memory tp))
      (ground (arith, g.memory tp)) (ground (arith, g.memory tp)) (ground (arith, g.memory tp))
Child-Grown p p' d g (ChildRules.memory_pmp tp td k0 k1 k2 k3) =
    ChildRules.memory_pmp (ground (arith, g.memory tp)) (ground (arith, g.memory tp))
      (ground (arith, g.memory tp)) (ground (arith, g.memory tp)) (ground (arith, g.memory tp))
      (ground (arith, g.memory tp))
Child-Grown p p' d g (ChildRules.time_time tp td k0 k1 k2) =
    ChildRules.time_time (ground (arith, g.time tp)) (ground (arith, g.time tp))
      (ground (arith, g.time tp)) (ground (arith, g.time tp)) (ground (arith, g.time tp))
Child-Grown p p' d g (ChildRules.channels_channels tp td k0 k1) =
    ChildRules.channels_channels (ground (arith, g.channels tp)) (ground (arith, g.channels tp))
      (ground (arith, g.channels tp)) (ground (arith, g.channels tp))
Child-Grown p p' d g (ChildRules.channels_receiver tp td k0 k1) =
    ChildRules.channels_receiver (ground (arith, g.channels tp)) (ground (arith, g.channels tp))
      (ground (arith, g.channels tp)) (ground (arith, g.channels tp))
Child-Grown p p' d g (ChildRules.channels_sender tp td k0 k1) =
    ChildRules.channels_sender (ground (arith, g.channels tp)) (ground (arith, g.channels tp))
      (ground (arith, g.channels tp)) (ground (arith, g.channels tp))
Child-Grown p p' d g (ChildRules.channels_server tp td k0 k1) =
    ChildRules.channels_server (ground (arith, g.channels tp)) (ground (arith, g.channels tp))
      (ground (arith, g.channels tp)) (ground (arith, g.channels tp))
Child-Grown p p' d g (ChildRules.channels_client tp td k0 k1) =
    ChildRules.channels_client (ground (arith, g.channels tp)) (ground (arith, g.channels tp))
      (ground (arith, g.channels tp)) (ground (arith, g.channels tp))
Child-Grown p p' d g (ChildRules.receiver_sender tp td k0) =
    ChildRules.receiver_sender (ground (arith, g.receiver tp)) (ground (arith, g.receiver tp))
      (ground (arith, g.receiver tp))
Child-Grown p p' d g (ChildRules.server_client tp td k0) =
    ChildRules.server_client (ground (arith, g.server tp)) (ground (arith, g.server tp))
      (ground (arith, g.server tp))
Child-Grown p p' d g (ChildRules.supervisor_supervisor tp td k0 k1) =
    ChildRules.supervisor_supervisor (ground (arith, g.supervisor tp))
      (ground (arith, g.supervisor tp)) (ground (arith, g.supervisor tp))
      (ground (arith, g.supervisor tp))

-- A capability that `cap_can_derive` allows from a well-formed parent is, by `cap_is_child`, a child of
-- what `derive_update_cap` makes of the parent.
pub derive-is_child :
    (p c p' : Cap)
    → IsValid p
    → can_derive p c ≡ true
    → derive_update_cap p c ≡ some p'
    → is_child p' c ≡ true
derive-is_child p c p' valid h e =
    (is_child_iff p' c).1 (Derivation-Child p c p' valid e ((can_derive_iff p c).0 h))

-- Every child of a capability is still a child of it after another one was derived from it.
pub is_child-derive :
    (p c p' d : Cap)
    → IsValid p
    → can_derive p c ≡ true
    → derive_update_cap p c ≡ some p'
    → is_child p d ≡ true
    → is_child p' d ≡ true
is_child-derive p c p' d valid h e child = (is_child_iff p' d).1 (
    Child-Grown p p' d (Derivation-Grown p c p' valid e ((can_derive_iff p c).0 h))
      ((is_child_iff p d).0 child))
