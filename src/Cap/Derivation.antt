-- ===== src/Cap/Derivation.antt =====
-- api/s3k_cap.h: which capability is a child of which, and which may be derived from which.
pub mod ChildRules
pub mod Rules
use separation_kernel.Prelude.{
  ℕ, ◌+◌, ◌%◌, ◌^◌, Bool, true, false, ◌&&◌, ◌||◌, ltb, leb, ◌==◌, if◌then◌else◌,
}
use separation_kernel.Prelude.Words.{◌&&&◌, ◌|||◌}
use separation_kernel.Cap.Base.{Cap, is_type}
use separation_kernel.Cap.CapType
use separation_kernel.Cap.Memory
use separation_kernel.Cap.Pmp
use separation_kernel.Cap.Time
use separation_kernel.Cap.Channels
use separation_kernel.Cap.Receiver
use separation_kernel.Cap.Sender
use separation_kernel.Cap.Server
use separation_kernel.Cap.Client
use separation_kernel.Cap.Supervisor

unfoldable pub pmp_napot_begin : ℕ → ℕ
pmp_napot_begin addr = addr &&& ((addr + 1) % 2 ^ 64)

unfoldable pub pmp_napot_end : ℕ → ℕ
pmp_napot_end addr = addr ||| ((addr + 1) % 2 ^ 64)

unfoldable pub is_revokable : Cap → Bool
unfolding is_type
is_revokable c =
    is_type c CapType.memory
    && is_type c CapType.time
    && is_type c CapType.channels
    && is_type c CapType.receiver
    && is_type c CapType.sender
    && is_type c CapType.server
    && is_type c CapType.client
    && is_type c CapType.supervisor

unfoldable pub is_child : Cap → Cap → Bool
unfolding is_type
is_child p c =
    if is_type p CapType.memory && is_type c CapType.memory
    then leb (Memory.get_begin p) (Memory.get_begin c)
      && leb (Memory.get_end c) (Memory.get_free p)
      && ((Memory.get_rwx c &&& Memory.get_rwx p) == Memory.get_rwx c)
    else if is_type p CapType.memory && is_type c CapType.pmp
    then leb (Memory.get_free p) (pmp_napot_begin (Pmp.get_addr c))
      && leb (pmp_napot_end (Pmp.get_addr c)) (Memory.get_end p)
      && (Memory.get_pmp p == 1)
      && ((Pmp.get_rwx c &&& Memory.get_rwx p) == Pmp.get_rwx c)
    else if is_type p CapType.time && is_type c CapType.time
    then leb (Time.get_begin p) (Time.get_begin c)
      && leb (Time.get_end c) (Time.get_free p)
      && (Time.get_hartid p == Time.get_hartid c)
    else if is_type p CapType.channels && is_type c CapType.channels
    then leb (Channels.get_begin p) (Channels.get_begin c)
      && leb (Channels.get_end c) (Channels.get_free p)
    else if is_type p CapType.channels && is_type c CapType.receiver
    then leb (Channels.get_begin p) (Receiver.get_channel c)
      && ltb (Receiver.get_channel c) (Channels.get_free p)
    else if is_type p CapType.channels && is_type c CapType.sender
    then leb (Channels.get_begin p) (Sender.get_channel c)
      && ltb (Sender.get_channel c) (Channels.get_free p)
    else if is_type p CapType.channels && is_type c CapType.server
    then leb (Channels.get_begin p) (Server.get_channel c)
      && ltb (Server.get_channel c) (Channels.get_free p)
    else if is_type p CapType.channels && is_type c CapType.client
    then leb (Channels.get_begin p) (Client.get_channel c)
      && ltb (Client.get_channel c) (Channels.get_free p)
    else if is_type p CapType.receiver && is_type c CapType.sender
    then Receiver.get_channel p == Sender.get_channel c
    else if is_type p CapType.server && is_type c CapType.client
    then Server.get_channel p == Client.get_channel c
    else if is_type p CapType.supervisor && is_type c CapType.supervisor
    then leb (Supervisor.get_begin p) (Supervisor.get_begin c)
      && leb (Supervisor.get_end c) (Supervisor.get_free p)
    else false

unfoldable pub can_derive : Cap → Cap → Bool
unfolding is_type
can_derive p c =
    if is_type p CapType.memory && is_type c CapType.memory
    then (Memory.get_pmp p == 0)
      && (Memory.get_pmp c == 0)
      && (Memory.get_free p == Memory.get_begin c)
      && leb (Memory.get_end c) (Memory.get_end p)
      && ((Memory.get_rwx c &&& Memory.get_rwx p) == Memory.get_rwx c)
      && (Memory.get_free c == Memory.get_begin c)
      && ltb (Memory.get_begin c) (Memory.get_end c)
    else if is_type p CapType.memory && is_type c CapType.pmp
    then leb (Memory.get_free p) (pmp_napot_begin (Pmp.get_addr c))
      && leb (pmp_napot_end (Pmp.get_addr c)) (Memory.get_end p)
      && ((Pmp.get_rwx c &&& Memory.get_rwx p) == Pmp.get_rwx c)
    else if is_type p CapType.time && is_type c CapType.time
    then (Time.get_free p == Time.get_begin c)
      && leb (Time.get_end c) (Time.get_end p)
      && (Time.get_hartid p == Time.get_hartid c)
      && (Time.get_free c == Time.get_begin c)
      && ltb (Time.get_begin c) (Time.get_end c)
    else if is_type p CapType.channels && is_type c CapType.channels
    then (Channels.get_free p == Channels.get_begin c)
      && leb (Channels.get_end c) (Channels.get_end p)
      && (Channels.get_free c == Channels.get_begin c)
      && ltb (Channels.get_begin c) (Channels.get_end c)
    else if is_type p CapType.channels && is_type c CapType.receiver
    then (Channels.get_free p == Receiver.get_channel c)
      && ltb (Receiver.get_channel c) (Channels.get_end p)
      && ((Receiver.get_grant c == 0) || (Receiver.get_grant c == 1))
    else if is_type p CapType.receiver && is_type c CapType.sender
    then (Receiver.get_channel p == Sender.get_channel c)
      && (Receiver.get_grant p == Sender.get_grant c)
    else if is_type p CapType.channels && is_type c CapType.server
    then (Channels.get_free p == Server.get_channel c)
      && ltb (Server.get_channel c) (Channels.get_end p)
      && ((Server.get_grant c == 0) || (Server.get_grant c == 1))
    else if is_type p CapType.server && is_type c CapType.client
    then (Server.get_channel p == Client.get_channel c)
      && (Server.get_grant p == Client.get_grant c)
    else if is_type p CapType.supervisor && is_type c CapType.supervisor
    then leb (Supervisor.get_free p) (Supervisor.get_begin c)
      && leb (Supervisor.get_end c) (Supervisor.get_end p)
      && (Supervisor.get_free c == Supervisor.get_begin c)
      && ltb (Supervisor.get_begin c) (Supervisor.get_end c)
    else false
