-- ===== src/Cap/Memory/Accessors.antt =====
-- The fields of a memory capability: what `mk` packs is read back, and a setter changes one field.
use separation_kernel.Prelude.{ℕ, ◌+◌, ◌*◌, ◌/◌, ◌%◌, ◌^◌, ◌<◌, ◌≡◌, arith}
use separation_kernel.Prelude.Bits.{bit_and_mask, bit_or_above, set_field, zero-bit_or}
use separation_kernel.Cap.CapType
use separation_kernel.Cap.Base.{Cap, IsWord, get_type, get_type_lem}
use separation_kernel.Cap.Memory.{
  mk, get_begin, get_end, get_rwx, get_free, get_pmp, set_begin, set_end, set_rwx, set_free,
  set_pmp, fields,
}

get_begin_lem : (c : Cap) → get_begin c ≡ c.word0 / 2 ^ 24 % 2 ^ 32
unfolding get_begin
get_begin_lem c = ground (arith, bit_and_mask 32 (c.word0 / 2 ^ 24))

get_end_lem : (c : Cap) → get_end c ≡ c.word1 / 2 ^ 32 % 2 ^ 32
unfolding get_end
get_end_lem c = ground (arith, bit_and_mask 32 (c.word1 / 2 ^ 32))

get_rwx_lem : (c : Cap) → get_rwx c ≡ c.word0 / 2 ^ 16 % 2 ^ 8
unfolding get_rwx
get_rwx_lem c = ground (arith, bit_and_mask 8 (c.word0 / 2 ^ 16))

get_free_lem : (c : Cap) → get_free c ≡ c.word1 / 2 ^ 0 % 2 ^ 32
unfolding get_free
get_free_lem c = ground (arith, bit_and_mask 32 (c.word1 / 2 ^ 0))

get_pmp_lem : (c : Cap) → get_pmp c ≡ c.word0 / 2 ^ 8 % 2 ^ 8
unfolding get_pmp
get_pmp_lem c = ground (arith, bit_and_mask 8 (c.word0 / 2 ^ 8))

ruleset readers =
    (arith, get_type_lem, get_begin_lem, get_end_lem, get_rwx_lem, get_free_lem, get_pmp_lem)

set_begin_word :
    (c : Cap) (v : ℕ)
    → IsWord c
    → v < 2 ^ 32
    → (set_begin c v).word0 ≡ (c.word0 / 2 ^ 24 / 2 ^ 32 * 2 ^ 32 + v) * 2 ^ 24 + c.word0 % 2 ^ 24
unfolding set_begin
set_begin_word c v w h = ground (arith, set_field 24 32 8 c.word0 v h)

set_begin_other : (c : Cap) (v : ℕ) → (set_begin c v).word1 ≡ c.word1
unfolding set_begin
set_begin_other c v = ground arith

pub fields-set_begin :
    (c : Cap) (v : ℕ)
    → IsWord c
    → v < 2 ^ 32
    → (fields (set_begin c v) ≡ record (fields c) { begin = v })
      × (get_type (set_begin c v) ≡ get_type c)
      × IsWord (set_begin c v)
unfolding fields
fields-set_begin c v w h = grind (readers, set_begin_word c v w h, set_begin_other c v)

set_end_word :
    (c : Cap) (v : ℕ)
    → IsWord c
    → v < 2 ^ 32
    → (set_end c v).word1 ≡ (c.word1 / 2 ^ 32 / 2 ^ 32 * 2 ^ 32 + v) * 2 ^ 32 + c.word1 % 2 ^ 32
unfolding set_end
set_end_word c v w h = ground (arith, set_field 32 32 0 c.word1 v h)

set_end_other : (c : Cap) (v : ℕ) → (set_end c v).word0 ≡ c.word0
unfolding set_end
set_end_other c v = ground arith

pub fields-set_end :
    (c : Cap) (v : ℕ)
    → IsWord c
    → v < 2 ^ 32
    → (fields (set_end c v) ≡ record (fields c) { end = v })
      × (get_type (set_end c v) ≡ get_type c)
      × IsWord (set_end c v)
unfolding fields
fields-set_end c v w h = grind (readers, set_end_word c v w h, set_end_other c v)

set_rwx_word :
    (c : Cap) (v : ℕ)
    → IsWord c
    → v < 2 ^ 8
    → (set_rwx c v).word0 ≡ (c.word0 / 2 ^ 16 / 2 ^ 8 * 2 ^ 8 + v) * 2 ^ 16 + c.word0 % 2 ^ 16
unfolding set_rwx
set_rwx_word c v w h = ground (arith, set_field 16 8 40 c.word0 v h)

set_rwx_other : (c : Cap) (v : ℕ) → (set_rwx c v).word1 ≡ c.word1
unfolding set_rwx
set_rwx_other c v = ground arith

pub fields-set_rwx :
    (c : Cap) (v : ℕ)
    → IsWord c
    → v < 2 ^ 8
    → (fields (set_rwx c v) ≡ record (fields c) { rwx = v })
      × (get_type (set_rwx c v) ≡ get_type c)
      × IsWord (set_rwx c v)
unfolding fields
fields-set_rwx c v w h = grind (readers, set_rwx_word c v w h, set_rwx_other c v)

set_free_word :
    (c : Cap) (v : ℕ)
    → IsWord c
    → v < 2 ^ 32
    → (set_free c v).word1 ≡ (c.word1 / 2 ^ 0 / 2 ^ 32 * 2 ^ 32 + v) * 2 ^ 0 + c.word1 % 2 ^ 0
unfolding set_free
set_free_word c v w h = ground (arith, set_field 0 32 32 c.word1 v h)

set_free_other : (c : Cap) (v : ℕ) → (set_free c v).word0 ≡ c.word0
unfolding set_free
set_free_other c v = ground arith

pub fields-set_free :
    (c : Cap) (v : ℕ)
    → IsWord c
    → v < 2 ^ 32
    → (fields (set_free c v) ≡ record (fields c) { free = v })
      × (get_type (set_free c v) ≡ get_type c)
      × IsWord (set_free c v)
unfolding fields
fields-set_free c v w h = grind (readers, set_free_word c v w h, set_free_other c v)

set_pmp_word :
    (c : Cap) (v : ℕ)
    → IsWord c
    → v < 2 ^ 8
    → (set_pmp c v).word0 ≡ (c.word0 / 2 ^ 8 / 2 ^ 8 * 2 ^ 8 + v) * 2 ^ 8 + c.word0 % 2 ^ 8
unfolding set_pmp
set_pmp_word c v w h = ground (arith, set_field 8 8 48 c.word0 v h)

set_pmp_other : (c : Cap) (v : ℕ) → (set_pmp c v).word1 ≡ c.word1
unfolding set_pmp
set_pmp_other c v = ground arith

pub fields-set_pmp :
    (c : Cap) (v : ℕ)
    → IsWord c
    → v < 2 ^ 8
    → (fields (set_pmp c v) ≡ record (fields c) { pmp = v })
      × (get_type (set_pmp c v) ≡ get_type c)
      × IsWord (set_pmp c v)
unfolding fields
fields-set_pmp c v w h = grind (readers, set_pmp_word c v w h, set_pmp_other c v)

mk_word0 :
    (begin end rwx free pmp : ℕ)
    → begin < 2 ^ 32
    → end < 2 ^ 32
    → rwx < 2 ^ 8
    → free < 2 ^ 32
    → pmp < 2 ^ 8
    → (mk begin end rwx free pmp).word0
      ≡ begin * 2 ^ 24 + (rwx * 2 ^ 16 + (pmp * 2 ^ 8 + (CapType.memory)))
unfolding mk
mk_word0 begin end rwx free pmp h0 h1 h2 h3 h4 = ground (
  arith,
  bit_or_above 8 (CapType.memory) pmp,
  bit_or_above 16 (pmp * 2 ^ 8 + (CapType.memory)) rwx,
  bit_or_above 24 (rwx * 2 ^ 16 + (pmp * 2 ^ 8 + (CapType.memory))) begin,
)

mk_word1 :
    (begin end rwx free pmp : ℕ)
    → begin < 2 ^ 32
    → end < 2 ^ 32
    → rwx < 2 ^ 8
    → free < 2 ^ 32
    → pmp < 2 ^ 8
    → (mk begin end rwx free pmp).word1 ≡ end * 2 ^ 32 + (free)
unfolding mk
mk_word1 begin end rwx free pmp h0 h1 h2 h3 h4 =
    ground (arith, zero-bit_or free, bit_or_above 32 (free) end)

-- Fields that fit their bits are read back from a memory capability that is made of them, it has the
-- type of memory capabilities, and both its words fit 64 bits.
pub fields-mk :
    (begin end rwx free pmp : ℕ)
    → begin < 2 ^ 32
    → end < 2 ^ 32
    → rwx < 2 ^ 8
    → free < 2 ^ 32
    → pmp < 2 ^ 8
    → (fields (mk begin end rwx free pmp)
        ≡ record { begin = begin; end = end; rwx = rwx; free = free; pmp = pmp })
      × (get_type (mk begin end rwx free pmp) ≡ CapType.memory)
      × IsWord (mk begin end rwx free pmp)
unfolding fields
fields-mk begin end rwx free pmp h0 h1 h2 h3 h4 =
    grind (readers, mk_word0 begin end rwx free pmp, mk_word1 begin end rwx free pmp)

-- Every field fits its bits.
pub fields-lt :
    (c : Cap)
    → ((fields c).begin < 2 ^ 32)
      × ((fields c).end < 2 ^ 32)
      × ((fields c).rwx < 2 ^ 8)
      × ((fields c).free < 2 ^ 32)
      × ((fields c).pmp < 2 ^ 8)
unfolding fields
fields-lt c = omega readers
