-- ===== src/Cap/Time/Accessors.antt =====
-- The fields of a time capability: what `mk` packs is read back, and a setter changes one field.
use separation_kernel.Prelude.{ℕ, ◌+◌, ◌*◌, ◌/◌, ◌%◌, ◌^◌, ◌<◌, ◌≡◌, arith}
use separation_kernel.Prelude.Bits.{bit_and_mask, bit_or_above, set_field}
use separation_kernel.Cap.CapType
use separation_kernel.Cap.Base.{Cap, IsWord, get_type, get_type_lem}
use separation_kernel.Cap.Time.{
  mk, get_hartid, get_begin, get_end, get_free, set_hartid, set_begin, set_end, set_free, fields,
}

get_hartid_lem : (c : Cap) → get_hartid c ≡ c.word0 / 2 ^ 56 % 2 ^ 8
unfolding get_hartid
get_hartid_lem c = ground (arith, bit_and_mask 8 (c.word0 / 2 ^ 56))

get_begin_lem : (c : Cap) → get_begin c ≡ c.word0 / 2 ^ 40 % 2 ^ 16
unfolding get_begin
get_begin_lem c = ground (arith, bit_and_mask 16 (c.word0 / 2 ^ 40))

get_end_lem : (c : Cap) → get_end c ≡ c.word0 / 2 ^ 24 % 2 ^ 16
unfolding get_end
get_end_lem c = ground (arith, bit_and_mask 16 (c.word0 / 2 ^ 24))

get_free_lem : (c : Cap) → get_free c ≡ c.word0 / 2 ^ 8 % 2 ^ 16
unfolding get_free
get_free_lem c = ground (arith, bit_and_mask 16 (c.word0 / 2 ^ 8))

ruleset readers = (arith, get_type_lem, get_hartid_lem, get_begin_lem, get_end_lem, get_free_lem)

set_hartid_word :
    (c : Cap) (v : ℕ)
    → IsWord c
    → v < 2 ^ 8
    → (set_hartid c v).word0 ≡ (c.word0 / 2 ^ 56 / 2 ^ 8 * 2 ^ 8 + v) * 2 ^ 56 + c.word0 % 2 ^ 56
unfolding set_hartid
set_hartid_word c v w h = ground (arith, set_field 56 8 0 c.word0 v h)

set_hartid_other : (c : Cap) (v : ℕ) → (set_hartid c v).word1 ≡ c.word1
unfolding set_hartid
set_hartid_other c v = ground arith

pub fields-set_hartid :
    (c : Cap) (v : ℕ)
    → IsWord c
    → v < 2 ^ 8
    → (fields (set_hartid c v) ≡ record (fields c) { hartid = v })
      × (get_type (set_hartid c v) ≡ get_type c)
      × IsWord (set_hartid c v)
unfolding fields
fields-set_hartid c v w h = grind (readers, set_hartid_word c v w h, set_hartid_other c v)

set_begin_word :
    (c : Cap) (v : ℕ)
    → IsWord c
    → v < 2 ^ 16
    → (set_begin c v).word0 ≡ (c.word0 / 2 ^ 40 / 2 ^ 16 * 2 ^ 16 + v) * 2 ^ 40 + c.word0 % 2 ^ 40
unfolding set_begin
set_begin_word c v w h = ground (arith, set_field 40 16 8 c.word0 v h)

set_begin_other : (c : Cap) (v : ℕ) → (set_begin c v).word1 ≡ c.word1
unfolding set_begin
set_begin_other c v = ground arith

pub fields-set_begin :
    (c : Cap) (v : ℕ)
    → IsWord c
    → v < 2 ^ 16
    → (fields (set_begin c v) ≡ record (fields c) { begin = v })
      × (get_type (set_begin c v) ≡ get_type c)
      × IsWord (set_begin c v)
unfolding fields
fields-set_begin c v w h = grind (readers, set_begin_word c v w h, set_begin_other c v)

set_end_word :
    (c : Cap) (v : ℕ)
    → IsWord c
    → v < 2 ^ 16
    → (set_end c v).word0 ≡ (c.word0 / 2 ^ 24 / 2 ^ 16 * 2 ^ 16 + v) * 2 ^ 24 + c.word0 % 2 ^ 24
unfolding set_end
set_end_word c v w h = ground (arith, set_field 24 16 24 c.word0 v h)

set_end_other : (c : Cap) (v : ℕ) → (set_end c v).word1 ≡ c.word1
unfolding set_end
set_end_other c v = ground arith

pub fields-set_end :
    (c : Cap) (v : ℕ)
    → IsWord c
    → v < 2 ^ 16
    → (fields (set_end c v) ≡ record (fields c) { end = v })
      × (get_type (set_end c v) ≡ get_type c)
      × IsWord (set_end c v)
unfolding fields
fields-set_end c v w h = grind (readers, set_end_word c v w h, set_end_other c v)

set_free_word :
    (c : Cap) (v : ℕ)
    → IsWord c
    → v < 2 ^ 16
    → (set_free c v).word0 ≡ (c.word0 / 2 ^ 8 / 2 ^ 16 * 2 ^ 16 + v) * 2 ^ 8 + c.word0 % 2 ^ 8
unfolding set_free
set_free_word c v w h = ground (arith, set_field 8 16 40 c.word0 v h)

set_free_other : (c : Cap) (v : ℕ) → (set_free c v).word1 ≡ c.word1
unfolding set_free
set_free_other c v = ground arith

-- Setting the free quantum of a time capability to one that fits its bits changes that field alone,
-- keeps the type, and leaves words of 64 bits.
pub fields-set_free :
    (c : Cap) (v : ℕ)
    → IsWord c
    → v < 2 ^ 16
    → (fields (set_free c v) ≡ record (fields c) { free = v })
      × (get_type (set_free c v) ≡ get_type c)
      × IsWord (set_free c v)
unfolding fields
fields-set_free c v w h = grind (readers, set_free_word c v w h, set_free_other c v)

mk_word0 :
    (hartid begin end free : ℕ)
    → hartid < 2 ^ 8
    → begin < 2 ^ 16
    → end < 2 ^ 16
    → free < 2 ^ 16
    → (mk hartid begin end free).word0
      ≡ hartid * 2 ^ 56 + (begin * 2 ^ 40 + (end * 2 ^ 24 + (free * 2 ^ 8 + (CapType.time))))
unfolding mk
mk_word0 hartid begin end free h0 h1 h2 h3 = ground (
  arith,
  bit_or_above 8 (CapType.time) free,
  bit_or_above 24 (free * 2 ^ 8 + (CapType.time)) end,
  bit_or_above 40 (end * 2 ^ 24 + (free * 2 ^ 8 + (CapType.time))) begin,
  bit_or_above 56 (begin * 2 ^ 40 + (end * 2 ^ 24 + (free * 2 ^ 8 + (CapType.time)))) hartid,
)

mk_word1 :
    (hartid begin end free : ℕ)
    → hartid < 2 ^ 8
    → begin < 2 ^ 16
    → end < 2 ^ 16
    → free < 2 ^ 16
    → (mk hartid begin end free).word1 ≡ 0
unfolding mk
mk_word1 hartid begin end free h0 h1 h2 h3 = ground (arith)

pub fields-mk :
    (hartid begin end free : ℕ)
    → hartid < 2 ^ 8
    → begin < 2 ^ 16
    → end < 2 ^ 16
    → free < 2 ^ 16
    → (fields (mk hartid begin end free)
        ≡ record { hartid = hartid; begin = begin; end = end; free = free })
      × (get_type (mk hartid begin end free) ≡ CapType.time)
      × IsWord (mk hartid begin end free)
unfolding fields
fields-mk hartid begin end free h0 h1 h2 h3 =
    grind (readers, mk_word0 hartid begin end free, mk_word1 hartid begin end free)

-- Every field fits its bits.
pub fields-lt :
    (c : Cap)
    → ((fields c).hartid < 2 ^ 8)
      × ((fields c).begin < 2 ^ 16)
      × ((fields c).end < 2 ^ 16)
      × ((fields c).free < 2 ^ 16)
unfolding fields
fields-lt c = omega readers
