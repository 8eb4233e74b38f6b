-- ===== src/Cap/Derivation/Rules.antt =====
-- The rules of derivation as an inductive relation, and the test of the kernel that decides it.
use separation_kernel.Prelude.{
  ◌≤◌, ◌<◌, ◌≡◌, ◌↔◌, ◌⊎◌, true, ◌&&◌, arith, if-cases, leb, ltb, ◌==◌, ◌||◌,
}
use separation_kernel.Prelude.Words.{◌&&&◌}
use separation_kernel.Cap.Base.{Cap, get_type, is_type}
use separation_kernel.Cap.CapType
use separation_kernel.Cap.Memory
use separation_kernel.Cap.Pmp
use separation_kernel.Cap.Time
use separation_kernel.Cap.Channels
use separation_kernel.Cap.Receiver
use separation_kernel.Cap.Sender
use separation_kernel.Cap.Server
use separation_kernel.Cap.Client
use separation_kernel.Cap.Supervisor
use separation_kernel.Cap.Derivation.{pmp_napot_begin, pmp_napot_end, can_derive}

-- Capability `c` may be derived from `p`, by the types of the two.
pub data Derivation (p c : Cap) : Type 0 where
  memory_memory :
      get_type p ≡ CapType.memory
      → get_type c ≡ CapType.memory
      → Memory.get_pmp p ≡ 0
      → Memory.get_pmp c ≡ 0
      → Memory.get_free p ≡ Memory.get_begin c
      → Memory.get_end c ≤ Memory.get_end p
      → (Memory.get_rwx c &&& Memory.get_rwx p) ≡ Memory.get_rwx c
      → Memory.get_free c ≡ Memory.get_begin c
      → Memory.get_begin c < Memory.get_end c
      → Derivation p c
  memory_pmp :
      get_type p ≡ CapType.memory
      → get_type c ≡ CapType.pmp
      → Memory.get_free p ≤ pmp_napot_begin (Pmp.get_addr c)
      → pmp_napot_end (Pmp.get_addr c) ≤ Memory.get_end p
      → (Pmp.get_rwx c &&& Memory.get_rwx p) ≡ Pmp.get_rwx c
      → Derivation p c
  time_time :
      get_type p ≡ CapType.time
      → get_type c ≡ CapType.time
      → Time.get_free p ≡ Time.get_begin c
      → Time.get_end c ≤ Time.get_end p
      → Time.get_hartid p ≡ Time.get_hartid c
      → Time.get_free c ≡ Time.get_begin c
      → Time.get_begin c < Time.get_end c
      → Derivation p c
  channels_channels :
      get_type p ≡ CapType.channels
      → get_type c ≡ CapType.channels
      → Channels.get_free p ≡ Channels.get_begin c
      → Channels.get_end c ≤ Channels.get_end p
      → Channels.get_free c ≡ Channels.get_begin c
      → Channels.get_begin c < Channels.get_end c
      → Derivation p c
  channels_receiver :
      get_type p ≡ CapType.channels
      → get_type c ≡ CapType.receiver
      → Channels.get_free p ≡ Receiver.get_channel c
      → Receiver.get_channel c < Channels.get_end p
      → (Receiver.get_grant c ≡ 0) ⊎ (Receiver.get_grant c ≡ 1)
      → Derivation p c
  channels_server :
      get_type p ≡ CapType.channels
      → get_type c ≡ CapType.server
      → Channels.get_free p ≡ Server.get_channel c
      → Server.get_channel c < Channels.get_end p
      → (Server.get_grant c ≡ 0) ⊎ (Server.get_grant c ≡ 1)
      → Derivation p c
  receiver_sender :
      get_type p ≡ CapType.receiver
      → get_type c ≡ CapType.sender
      → Receiver.get_channel p ≡ Sender.get_channel c
      → Receiver.get_grant p ≡ Sender.get_grant c
      → Derivation p c
  server_client :
      get_type p ≡ CapType.server
      → get_type c ≡ CapType.client
      → Server.get_channel p ≡ Client.get_channel c
      → Server.get_grant p ≡ Client.get_grant c
      → Derivation p c
  supervisor_supervisor :
      get_type p ≡ CapType.supervisor
      → get_type c ≡ CapType.supervisor
      → Supervisor.get_free p ≤ Supervisor.get_begin c
      → Supervisor.get_end c ≤ Supervisor.get_end p
      → Supervisor.get_free c ≡ Supervisor.get_begin c
      → Supervisor.get_begin c < Supervisor.get_end c
      → Derivation p c

Derivation-complete : (p c : Cap) → Derivation p c → can_derive p c ≡ true
unfolding can_derive
Derivation-complete p c (memory_memory h0 h1 h2 h3 h4 h5 h6 h7 h8) = ground arith
Derivation-complete p c (memory_pmp h0 h1 h2 h3 h4) = ground arith
Derivation-complete p c (time_time h0 h1 h2 h3 h4 h5 h6) = ground arith
Derivation-complete p c (channels_channels h0 h1 h2 h3 h4 h5) = ground arith
Derivation-complete p c (channels_receiver h0 h1 h2 h3 h4) = ground arith
Derivation-complete p c (channels_server h0 h1 h2 h3 h4) = ground arith
Derivation-complete p c (receiver_sender h0 h1 h2 h3) = ground arith
Derivation-complete p c (server_client h0 h1 h2 h3) = ground arith
Derivation-complete p c (supervisor_supervisor h0 h1 h2 h3 h4 h5) = ground arith

-- What the test of each pair of types says, as a rule.
module _ (p c : Cap) where
  memory_memory_lem :
      (is_type p CapType.memory && is_type c CapType.memory) ≡ true
      → ((Memory.get_pmp p == 0)
          && (Memory.get_pmp c == 0)
          && (Memory.get_free p == Memory.get_begin c)
          && leb (Memory.get_end c) (Memory.get_end p)
          && ((Memory.get_rwx c &&& Memory.get_rwx p) == Memory.get_rwx c)
          && (Memory.get_free c == Memory.get_begin c)
          && ltb (Memory.get_begin c) (Memory.get_end c))
        ≡ true
      → Derivation p c
  unfolding is_type
  memory_memory_lem t h =
      memory_memory (ground arith) (ground arith) (ground arith) (ground arith) (ground arith)
        (ground arith) (ground arith) (ground arith) (ground arith)

  memory_pmp_lem :
      (is_type p CapType.memory && is_type c CapType.pmp) ≡ true
      → (leb (Memory.get_free p) (pmp_napot_begin (Pmp.get_addr c))
          && leb (pmp_napot_end (Pmp.get_addr c)) (Memory.get_end p)
          && ((Pmp.get_rwx c &&& Memory.get_rwx p) == Pmp.get_rwx c))
        ≡ true
      → Derivation p c
  unfolding is_type
  memory_pmp_lem t h =
      memory_pmp (ground arith) (ground arith) (ground arith) (ground arith) (ground arith)

  time_time_lem :
      (is_type p CapType.time && is_type c CapType.time) ≡ true
      → ((Time.get_free p == Time.get_begin c)
          && leb (Time.get_end c) (Time.get_end p)
          && (Time.get_hartid p == Time.get_hartid c)
          && (Time.get_free c == Time.get_begin c)
          && ltb (Time.get_begin c) (Time.get_end c))
        ≡ true
      → Derivation p c
  unfolding is_type
  time_time_lem t h =
      time_time (ground arith) (ground arith) (ground arith) (ground arith) (ground arith)
        (ground arith) (ground arith)

  channels_channels_lem :
      (is_type p CapType.channels && is_type c CapType.channels) ≡ true
      → ((Channels.get_free p == Channels.get_begin c)
          && leb (Channels.get_end c) (Channels.get_end p)
          && (Channels.get_free c == Channels.get_begin c)
          && ltb (Channels.get_begin c) (Channels.get_end c))
        ≡ true
      → Derivation p c
  unfolding is_type
  channels_channels_lem t h =
      channels_channels (ground arith) (ground arith) (ground arith) (ground arith) (ground arith)
        (ground arith)

  channels_receiver_lem :
      (is_type p CapType.channels && is_type c CapType.receiver) ≡ true
      → ((Channels.get_free p == Receiver.get_channel c)
          && ltb (Receiver.get_channel c) (Channels.get_end p)
          && ((Receiver.get_grant c == 0) || (Receiver.get_grant c == 1)))
        ≡ true
      → Derivation p c
  unfolding is_type
  channels_receiver_lem t h =
      channels_receiver (ground arith) (ground arith) (ground arith) (ground arith) (ground arith)

  receiver_sender_lem :
      (is_type p CapType.receiver && is_type c CapType.sender) ≡ true
      → ((Receiver.get_channel p == Sender.get_channel c)
          && (Receiver.get_grant p == Sender.get_grant c))
        ≡ true
      → Derivation p c
  unfolding is_type
  receiver_sender_lem t h =
      receiver_sender (ground arith) (ground arith) (ground arith) (ground arith)

  channels_server_lem :
      (is_type p CapType.channels && is_type c CapType.server) ≡ true
      → ((Channels.get_free p == Server.get_channel c)
          && ltb (Server.get_channel c) (Channels.get_end p)
          && ((Server.get_grant c == 0) || (Server.get_grant c == 1)))
        ≡ true
      → Derivation p c
  unfolding is_type
  channels_server_lem t h =
      channels_server (ground arith) (ground arith) (ground arith) (ground arith) (ground arith)

  server_client_lem :
      (is_type p CapType.server && is_type c CapType.client) ≡ true
      → ((Server.get_channel p == Client.get_channel c)
          && (Server.get_grant p == Client.get_grant c))
        ≡ true
      → Derivation p c
  unfolding is_type
  server_client_lem t h = server_client (ground arith) (ground arith) (ground arith) (ground arith)

  supervisor_supervisor_lem :
      (is_type p CapType.supervisor && is_type c CapType.supervisor) ≡ true
      → (leb (Supervisor.get_free p) (Supervisor.get_begin c)
          && leb (Supervisor.get_end c) (Supervisor.get_end p)
          && (Supervisor.get_free c == Supervisor.get_begin c)
          && ltb (Supervisor.get_begin c) (Supervisor.get_end c))
        ≡ true
      → Derivation p c
  unfolding is_type
  supervisor_supervisor_lem t h =
      supervisor_supervisor (ground arith) (ground arith) (ground arith) (ground arith)
        (ground arith) (ground arith)

  Derivation-sound : can_derive p c ≡ true → Derivation p c
  unfolding can_derive
  Derivation-sound h =
      if-cases (is_type p CapType.memory && is_type c CapType.memory) h memory_memory_lem (λ h1.
        if-cases (is_type p CapType.memory && is_type c CapType.pmp) h1 memory_pmp_lem (λ h2.
          if-cases (is_type p CapType.time && is_type c CapType.time) h2 time_time_lem (λ h3.
            if-cases (is_type p CapType.channels && is_type c CapType.channels) h3
              channels_channels_lem
              (λ h4.
                if-cases (is_type p CapType.channels && is_type c CapType.receiver) h4
                  channels_receiver_lem
                  (λ h5.
                    if-cases (is_type p CapType.receiver && is_type c CapType.sender) h5
                      receiver_sender_lem
                      (λ h6.
                        if-cases (is_type p CapType.channels && is_type c CapType.server) h6
                          channels_server_lem
                          (λ h7.
                            if-cases (is_type p CapType.server && is_type c CapType.client) h7
                              server_client_lem
                              (λ h8.
                                if-cases
                                  (is_type p CapType.supervisor && is_type c CapType.supervisor) h8
                                  supervisor_supervisor_lem (λ h9. absurd (cc))))))))))

  -- `cap_can_derive` holds of two capabilities exactly when one of the nine rules of derivation does.
  pub can_derive_iff : (can_derive p c ≡ true) ↔ Derivation p c
  can_derive_iff = (Derivation-sound, Derivation-complete p c)
