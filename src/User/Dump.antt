-- ===== src/User/Dump.antt =====
-- api/s3k.h: `s3k_dump_cap`, which prints a capability into a buffer.
use separation_kernel.Prelude.{ℕ, List, [], ◌∷◌, ◌==◌, if◌then◌else◌}
use separation_kernel.Prelude.Codes.{codes}
use separation_kernel.Print.{Arg, word}
use separation_kernel.Cap.{Cap, get_type}
use separation_kernel.Cap.CapType
use separation_kernel.Cap.Memory
use separation_kernel.Cap.Pmp
use separation_kernel.Cap.Time
use separation_kernel.Cap.Channels
use separation_kernel.Cap.Receiver
use separation_kernel.Cap.Sender
use separation_kernel.Cap.Server
use separation_kernel.Cap.Client
use separation_kernel.Cap.Supervisor

-- `snprintf` of the C library that the process is linked with: the bytes in a buffer of `n` bytes
-- before the final 0, and the result.
abbrev pub Snprintf : Type 0
Snprintf = (n : ℕ) → (format : List ℕ) → List Arg → List ℕ × ℕ

unfoldable pub s3k_dump_cap : Snprintf → (n : ℕ) → Cap → List ℕ × ℕ
s3k_dump_cap snprintf n cap =
    if get_type cap == CapType.empty
    then snprintf n (codes "EMPTY") []
    else if get_type cap == CapType.memory
    then snprintf n (codes "MEMORY{begin=0x%lx,end=0x%lx,rwx=%ld,free=0x%lx,pmp=%ld}") (
        word (Memory.get_begin cap)
        ∷ (word (Memory.get_end cap)
            ∷ (word (Memory.get_rwx cap)
                ∷ (word (Memory.get_free cap) ∷ (word (Memory.get_pmp cap) ∷ [])))))
    else if get_type cap == CapType.pmp
    then snprintf n (codes "PMP{addr=0x%lx,rwx=%ld}")
        (word (Pmp.get_addr cap) ∷ (word (Pmp.get_rwx cap) ∷ []))
    else if get_type cap == CapType.time
    then snprintf n (codes "TIME{hartid=%ld,begin=%ld,end=%ld,free=%ld}") (
        word (Time.get_hartid cap)
        ∷ (word (Time.get_begin cap) ∷ (word (Time.get_end cap) ∷ (word (Time.get_free cap) ∷ []))))
    else if get_type cap == CapType.channels
    then snprintf n (codes "CHANNELS{begin=%ld,end=%ld,free=%ld}") (
        word (Channels.get_begin cap)
        ∷ (word (Channels.get_end cap) ∷ (word (Channels.get_free cap) ∷ [])))
    else if get_type cap == CapType.receiver
    then snprintf n (codes "RECEIVER{channel=%ld,mode=%ld}")
        (word (Receiver.get_channel cap) ∷ (word (Receiver.get_grant cap) ∷ []))
    else if get_type cap == CapType.sender
    then snprintf n (codes "SENDER{channel=%ld,mode=%ld}")
        (word (Sender.get_channel cap) ∷ (word (Sender.get_grant cap) ∷ []))
    else if get_type cap == CapType.server
    then snprintf n (codes "SERVER{channel=%ld,mode=%ld}")
        (word (Server.get_channel cap) ∷ (word (Server.get_grant cap) ∷ []))
    else if get_type cap == CapType.client
    then snprintf n (codes "CLIENT{channel=%ld,mode=%ld}")
        (word (Client.get_channel cap) ∷ (word (Client.get_grant cap) ∷ []))
    else if get_type cap == CapType.supervisor
    then snprintf n (codes "SUPERVISOR{begin=%ld,end=%ld,free=%ld}") (
        word (Supervisor.get_begin cap)
        ∷ (word (Supervisor.get_end cap) ∷ (word (Supervisor.get_free cap) ∷ [])))
    else snprintf n (codes "INVALID") []
