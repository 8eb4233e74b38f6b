-- ===== src/User/Description.antt =====
-- api/s3k.h: what there is to read of a capability, by its type.
use separation_kernel.Prelude.{ℕ, ◌^◌, ◌<◌, refl, List, [], ◌∷◌, ◌==◌, if◌then◌else◌, arith}
use separation_kernel.Prelude.Codes.{codes}
use separation_kernel.Prelude.Words.{◌>>>◌, ◌&&&◌}
use separation_kernel.Prelude.Bits.{bit_and_mask}
use separation_kernel.Print.Parts.{Part, lit, hex, dec, Fit}
use separation_kernel.Cap.{Cap, get_type}
use separation_kernel.Cap.CapType
use separation_kernel.Cap.Memory
use separation_kernel.Cap.Pmp
use separation_kernel.Cap.Time
use separation_kernel.Cap.Channels
use separation_kernel.Cap.Receiver
use separation_kernel.Cap.Sender
use separation_kernel.Cap.Server
use separation_kernel.Cap.Client
use separation_kernel.Cap.Supervisor

abbrev pub memory_parts : Cap → List Part
memory_parts cap =
    lit (codes "MEMORY{begin=0x")
    ∷ (hex (Memory.get_begin cap)
        ∷ (lit (codes ",end=0x")
            ∷ (hex (Memory.get_end cap)
                ∷ (lit (codes ",rwx=")
                    ∷ (dec (Memory.get_rwx cap)
                        ∷ (lit (codes ",free=0x")
                            ∷ (hex (Memory.get_free cap)
                                ∷ (lit (codes ",pmp=")
                                    ∷ (dec (Memory.get_pmp cap) ∷ (lit (codes "}") ∷ []))))))))))

abbrev pub pmp_parts : Cap → List Part
pmp_parts cap =
    lit (codes "PMP{addr=0x")
    ∷ (hex (Pmp.get_addr cap)
        ∷ (lit (codes ",rwx=") ∷ (dec (Pmp.get_rwx cap) ∷ (lit (codes "}") ∷ []))))

abbrev pub time_parts : Cap → List Part
time_parts cap =
    lit (codes "TIME{hartid=")
    ∷ (dec (Time.get_hartid cap)
        ∷ (lit (codes ",begin=")
            ∷ (dec (Time.get_begin cap)
                ∷ (lit (codes ",end=")
                    ∷ (dec (Time.get_end cap)
                        ∷ (lit (codes ",free=")
                            ∷ (dec (Time.get_free cap) ∷ (lit (codes "}") ∷ []))))))))

abbrev pub channels_parts : Cap → List Part
channels_parts cap =
    lit (codes "CHANNELS{begin=")
    ∷ (dec (Channels.get_begin cap)
        ∷ (lit (codes ",end=")
            ∷ (dec (Channels.get_end cap)
                ∷ (lit (codes ",free=") ∷ (dec (Channels.get_free cap) ∷ (lit (codes "}") ∷ []))))))

abbrev pub receiver_parts : Cap → List Part
receiver_parts cap =
    lit (codes "RECEIVER{channel=")
    ∷ (dec (Receiver.get_channel cap)
        ∷ (lit (codes ",mode=") ∷ (dec (Receiver.get_grant cap) ∷ (lit (codes "}") ∷ []))))

abbrev pub sender_parts : Cap → List Part
sender_parts cap =
    lit (codes "SENDER{channel=")
    ∷ (dec (Sender.get_channel cap)
        ∷ (lit (codes ",mode=") ∷ (dec (Sender.get_grant cap) ∷ (lit (codes "}") ∷ []))))

abbrev pub server_parts : Cap → List Part
server_parts cap =
    lit (codes "SERVER{channel=")
    ∷ (dec (Server.get_channel cap)
        ∷ (lit (codes ",mode=") ∷ (dec (Server.get_grant cap) ∷ (lit (codes "}") ∷ []))))

abbrev pub client_parts : Cap → List Part
client_parts cap =
    lit (codes "CLIENT{channel=")
    ∷ (dec (Client.get_channel cap)
        ∷ (lit (codes ",mode=") ∷ (dec (Client.get_grant cap) ∷ (lit (codes "}") ∷ []))))

abbrev pub supervisor_parts : Cap → List Part
supervisor_parts cap =
    lit (codes "SUPERVISOR{begin=")
    ∷ (dec (Supervisor.get_begin cap)
        ∷ (lit (codes ",end=")
            ∷ (dec (Supervisor.get_end cap)
                ∷ (lit (codes ",free=")
                    ∷ (dec (Supervisor.get_free cap) ∷ (lit (codes "}") ∷ []))))))

-- What there is to read of a capability: the name of its type, and its fields.
abbrev pub description : Cap → List Part
description cap =
    if get_type cap == CapType.empty
    then lit (codes "EMPTY") ∷ []
    else if get_type cap == CapType.memory
    then memory_parts cap
    else if get_type cap == CapType.pmp
    then pmp_parts cap
    else if get_type cap == CapType.time
    then time_parts cap
    else if get_type cap == CapType.channels
    then channels_parts cap
    else if get_type cap == CapType.receiver
    then receiver_parts cap
    else if get_type cap == CapType.sender
    then sender_parts cap
    else if get_type cap == CapType.server
    then server_parts cap
    else if get_type cap == CapType.client
    then client_parts cap
    else if get_type cap == CapType.supervisor
    then supervisor_parts cap
    else lit (codes "INVALID") ∷ []

byte-fits : (x : ℕ) → (x &&& 0xff) < 2 ^ 63
byte-fits x = omega (arith, bit_and_mask 8 x)

half-fits : (x : ℕ) → (x &&& 0xffff) < 2 ^ 63
half-fits x = omega (arith, bit_and_mask 16 x)

word-fits : (x : ℕ) → (x &&& 0xffffffff) < 2 ^ 63
word-fits x = omega (arith, bit_and_mask 32 x)

pub memory_parts-Fit : (cap : Cap) → Fit (memory_parts cap)
unfolding Memory.get_begin Memory.get_end Memory.get_rwx Memory.get_free Memory.get_pmp
memory_parts-Fit cap = (
  refl,
  (
    word-fits (cap.word0 >>> 24),
    (
      refl,
      (
        word-fits (cap.word1 >>> 32),
        (
          refl,
          (
            byte-fits (cap.word0 >>> 16),
            (refl, (word-fits (cap.word1), (refl, (byte-fits (cap.word0 >>> 8), (refl, tt))))),
          ),
        ),
      ),
    ),
  ),
)

pub pmp_parts-Fit : (cap : Cap) → Fit (pmp_parts cap)
unfolding Pmp.get_addr Pmp.get_rwx
pmp_parts-Fit cap =
    (refl, (word-fits (cap.word0 >>> 16), (refl, (byte-fits (cap.word0 >>> 8), (refl, tt)))))

pub time_parts-Fit : (cap : Cap) → Fit (time_parts cap)
unfolding Time.get_hartid Time.get_begin Time.get_end Time.get_free
time_parts-Fit cap = (
  refl,
  (
    byte-fits (cap.word0 >>> 56),
    (
      refl,
      (
        half-fits (cap.word0 >>> 40),
        (refl, (half-fits (cap.word0 >>> 24), (refl, (half-fits (cap.word0 >>> 8), (refl, tt))))),
      ),
    ),
  ),
)

pub channels_parts-Fit : (cap : Cap) → Fit (channels_parts cap)
unfolding Channels.get_begin Channels.get_end Channels.get_free
channels_parts-Fit cap = (
  refl,
  (
    half-fits (cap.word0 >>> 40),
    (refl, (half-fits (cap.word0 >>> 24), (refl, (half-fits (cap.word0 >>> 8), (refl, tt))))),
  ),
)

pub receiver_parts-Fit : (cap : Cap) → Fit (receiver_parts cap)
unfolding Receiver.get_channel Receiver.get_grant
receiver_parts-Fit cap =
    (refl, (half-fits (cap.word0 >>> 16), (refl, (byte-fits (cap.word0 >>> 8), (refl, tt)))))

pub sender_parts-Fit : (cap : Cap) → Fit (sender_parts cap)
unfolding Sender.get_channel Sender.get_grant
sender_parts-Fit cap =
    (refl, (half-fits (cap.word0 >>> 16), (refl, (byte-fits (cap.word0 >>> 8), (refl, tt)))))

pub server_parts-Fit : (cap : Cap) → Fit (server_parts cap)
unfolding Server.get_channel Server.get_grant
server_parts-Fit cap =
    (refl, (half-fits (cap.word0 >>> 16), (refl, (byte-fits (cap.word0 >>> 8), (refl, tt)))))

pub client_parts-Fit : (cap : Cap) → Fit (client_parts cap)
unfolding Client.get_channel Client.get_grant
client_parts-Fit cap =
    (refl, (half-fits (cap.word0 >>> 16), (refl, (byte-fits (cap.word0 >>> 8), (refl, tt)))))

pub supervisor_parts-Fit : (cap : Cap) → Fit (supervisor_parts cap)
unfolding Supervisor.get_begin Supervisor.get_end Supervisor.get_free
supervisor_parts-Fit cap = (
  refl,
  (
    byte-fits (cap.word0 >>> 24),
    (refl, (byte-fits (cap.word0 >>> 16), (refl, (byte-fits (cap.word0 >>> 8), (refl, tt))))),
  ),
)
