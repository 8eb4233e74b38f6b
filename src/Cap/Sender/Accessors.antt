-- ===== src/Cap/Sender/Accessors.antt =====
-- The fields of a sender capability: what `mk` packs is read back, and a setter changes one field.
use separation_kernel.Prelude.{ℕ, ◌+◌, ◌*◌, ◌/◌, ◌%◌, ◌^◌, ◌<◌, ◌≡◌, arith}
use separation_kernel.Prelude.Bits.{bit_and_mask, bit_or_above, set_field}
use separation_kernel.Cap.CapType
use separation_kernel.Cap.Base.{Cap, IsWord, get_type, get_type_lem}
use separation_kernel.Cap.Sender.{mk, get_channel, get_grant, set_channel, set_grant, fields}

get_channel_lem : (c : Cap) → get_channel c ≡ c.word0 / 2 ^ 16 % 2 ^ 16
unfolding get_channel
get_channel_lem c = ground (arith, bit_and_mask 16 (c.word0 / 2 ^ 16))

get_grant_lem : (c : Cap) → get_grant c ≡ c.word0 / 2 ^ 8 % 2 ^ 8
unfolding get_grant
get_grant_lem c = ground (arith, bit_and_mask 8 (c.word0 / 2 ^ 8))

ruleset readers = (arith, get_type_lem, get_channel_lem, get_grant_lem)

set_channel_word :
    (c : Cap) (v : ℕ)
    → IsWord c
    → v < 2 ^ 16
    → (set_channel c v).word0 ≡ (c.word0 / 2 ^ 16 / 2 ^ 16 * 2 ^ 16 + v) * 2 ^ 16 + c.word0 % 2 ^ 16
unfolding set_channel
set_channel_word c v w h = ground (arith, set_field 16 16 32 c.word0 v h)

set_channel_other : (c : Cap) (v : ℕ) → (set_channel c v).word1 ≡ c.word1
unfolding set_channel
set_channel_other c v = ground arith

pub fields-set_channel :
    (c : Cap) (v : ℕ)
    → IsWord c
    → v < 2 ^ 16
    → (fields (set_channel c v) ≡ record (fields c) { channel = v })
      × (get_type (set_channel c v) ≡ get_type c)
      × IsWord (set_channel c v)
unfolding fields
fields-set_channel c v w h = grind (readers, set_channel_word c v w h, set_channel_other c v)

set_grant_word :
    (c : Cap) (v : ℕ)
    → IsWord c
    → v < 2 ^ 8
    → (set_grant c v).word0 ≡ (c.word0 / 2 ^ 8 / 2 ^ 8 * 2 ^ 8 + v) * 2 ^ 8 + c.word0 % 2 ^ 8
unfolding set_grant
set_grant_word c v w h = ground (arith, set_field 8 8 48 c.word0 v h)

set_grant_other : (c : Cap) (v : ℕ) → (set_grant c v).word1 ≡ c.word1
unfolding set_grant
set_grant_other c v = ground arith

pub fields-set_grant :
    (c : Cap) (v : ℕ)
    → IsWord c
    → v < 2 ^ 8
    → (fields (set_grant c v) ≡ record (fields c) { grant = v })
      × (get_type (set_grant c v) ≡ get_type c)
      × IsWord (set_grant c v)
unfolding fields
fields-set_grant c v w h = grind (readers, set_grant_word c v w h, set_grant_other c v)

mk_word0 :
    (channel grant : ℕ)
    → channel < 2 ^ 16
    → grant < 2 ^ 8
    → (mk channel grant).word0 ≡ channel * 2 ^ 16 + (grant * 2 ^ 8 + (CapType.sender))
unfolding mk
mk_word0 channel grant h0 h1 = ground (
  arith,
  bit_or_above 8 (CapType.sender) grant,
  bit_or_above 16 (grant * 2 ^ 8 + (CapType.sender)) channel,
)

mk_word1 : (channel grant : ℕ) → channel < 2 ^ 16 → grant < 2 ^ 8 → (mk channel grant).word1 ≡ 0
unfolding mk
mk_word1 channel grant h0 h1 = ground (arith)

pub fields-mk :
    (channel grant : ℕ)
    → channel < 2 ^ 16
    → grant < 2 ^ 8
    → (fields (mk channel grant) ≡ record { channel = channel; grant = grant })
      × (get_type (mk channel grant) ≡ CapType.sender)
      × IsWord (mk channel grant)
unfolding fields
fields-mk channel grant h0 h1 = grind (readers, mk_word0 channel grant, mk_word1 channel grant)

-- Every field fits its bits.
pub fields-lt : (c : Cap) → ((fields c).channel < 2 ^ 16) × ((fields c).grant < 2 ^ 8)
unfolding fields
fields-lt c = omega readers
