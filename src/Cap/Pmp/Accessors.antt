-- ===== src/Cap/Pmp/Accessors.antt =====
-- The fields of a pmp capability: what `mk` packs is read back, and a setter changes one field.
use separation_kernel.Prelude.{ℕ, ◌+◌, ◌*◌, ◌/◌, ◌%◌, ◌^◌, ◌<◌, ◌≡◌, arith}
use separation_kernel.Prelude.Bits.{bit_and_mask, bit_or_above, set_field}
use separation_kernel.Cap.CapType
use separation_kernel.Cap.Base.{Cap, IsWord, get_type, get_type_lem}
use separation_kernel.Cap.Pmp.{mk, get_addr, get_rwx, set_addr, set_rwx, fields}

get_addr_lem : (c : Cap) → get_addr c ≡ c.word0 / 2 ^ 16 % 2 ^ 32
unfolding get_addr
get_addr_lem c = ground (arith, bit_and_mask 32 (c.word0 / 2 ^ 16))

get_rwx_lem : (c : Cap) → get_rwx c ≡ c.word0 / 2 ^ 8 % 2 ^ 8
unfolding get_rwx
get_rwx_lem c = ground (arith, bit_and_mask 8 (c.word0 / 2 ^ 8))

ruleset readers = (arith, get_type_lem, get_addr_lem, get_rwx_lem)

set_addr_word :
    (c : Cap) (v : ℕ)
    → IsWord c
    → v < 2 ^ 32
    → (set_addr c v).word0 ≡ (c.word0 / 2 ^ 16 / 2 ^ 32 * 2 ^ 32 + v) * 2 ^ 16 + c.word0 % 2 ^ 16
unfolding set_addr
set_addr_word c v w h = ground (arith, set_field 16 32 16 c.word0 v h)

set_addr_other : (c : Cap) (v : ℕ) → (set_addr c v).word1 ≡ c.word1
unfolding set_addr
set_addr_other c v = ground arith

pub fields-set_addr :
    (c : Cap) (v : ℕ)
    → IsWord c
    → v < 2 ^ 32
    → (fields (set_addr c v) ≡ record (fields c) { addr = v })
      × (get_type (set_addr c v) ≡ get_type c)
      × IsWord (set_addr c v)
unfolding fields
fields-set_addr c v w h = grind (readers, set_addr_word c v w h, set_addr_other c v)

set_rwx_word :
    (c : Cap) (v : ℕ)
    → IsWord c
    → v < 2 ^ 8
    → (set_rwx c v).word0 ≡ (c.word0 / 2 ^ 8 / 2 ^ 8 * 2 ^ 8 + v) * 2 ^ 8 + c.word0 % 2 ^ 8
unfolding set_rwx
set_rwx_word c v w h = ground (arith, set_field 8 8 48 c.word0 v h)

set_rwx_other : (c : Cap) (v : ℕ) → (set_rwx c v).word1 ≡ c.word1
unfolding set_rwx
set_rwx_other c v = ground arith

pub fields-set_rwx :
    (c : Cap) (v : ℕ)
    → IsWord c
    → v < 2 ^ 8
    → (fields (set_rwx c v) ≡ record (fields c) { rwx = v })
      × (get_type (set_rwx c v) ≡ get_type c)
      × IsWord (set_rwx c v)
unfolding fields
fields-set_rwx c v w h = grind (readers, set_rwx_word c v w h, set_rwx_other c v)

mk_word0 :
    (addr rwx : ℕ)
    → addr < 2 ^ 32
    → rwx < 2 ^ 8
    → (mk addr rwx).word0 ≡ addr * 2 ^ 16 + (rwx * 2 ^ 8 + (CapType.pmp))
unfolding mk
mk_word0 addr rwx h0 h1 =
    ground
      (arith, bit_or_above 8 (CapType.pmp) rwx, bit_or_above 16 (rwx * 2 ^ 8 + (CapType.pmp)) addr)

mk_word1 : (addr rwx : ℕ) → addr < 2 ^ 32 → rwx < 2 ^ 8 → (mk addr rwx).word1 ≡ 0
unfolding mk
mk_word1 addr rwx h0 h1 = ground (arith)

pub fields-mk :
    (addr rwx : ℕ)
    → addr < 2 ^ 32
    → rwx < 2 ^ 8
    → (fields (mk addr rwx) ≡ record { addr = addr; rwx = rwx })
      × (get_type (mk addr rwx) ≡ CapType.pmp)
      × IsWord (mk addr rwx)
unfolding fields
fields-mk addr rwx h0 h1 = grind (readers, mk_word0 addr rwx, mk_word1 addr rwx)

-- Every field fits its bits.
pub fields-lt : (c : Cap) → ((fields c).addr < 2 ^ 32) × ((fields c).rwx < 2 ^ 8)
unfolding fields
fields-lt c = omega readers
