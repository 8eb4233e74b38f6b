-- ===== src/Cap/Memory.antt =====
-- Memory ranges: `cap_mk_memory` and the accessors of api/s3k_cap.h.
pub mod Accessors
use separation_kernel.Prelude.{ℕ}
use separation_kernel.Prelude.Words.{◌<<<◌, ◌>>>◌, ◌&&&◌, ◌|||◌, bit_not}
use separation_kernel.Cap.CapType
use separation_kernel.Cap.Base.{Cap}

-- What such a capability says.
pub record Fields : Type 0 where
  pub begin : ℕ
  pub end : ℕ
  pub rwx : ℕ
  pub free : ℕ
  pub pmp : ℕ

unfoldable pub mk : (begin end rwx free pmp : ℕ) → Cap
mk begin end rwx free pmp = record {
  word0 = CapType.memory ||| (pmp <<< 8) ||| (rwx <<< 16) ||| (begin <<< 24);
  word1 = 0 ||| free ||| (end <<< 32);
}

unfoldable pub get_begin : Cap → ℕ
get_begin c = c.word0 >>> 24 &&& 0xffffffff

unfoldable pub set_begin : Cap → ℕ → Cap
set_begin c begin = record c { word0 = c.word0 &&& bit_not 0xffffffff000000 ||| (begin <<< 24) }

unfoldable pub get_end : Cap → ℕ
get_end c = c.word1 >>> 32 &&& 0xffffffff

unfoldable pub set_end : Cap → ℕ → Cap
set_end c end = record c { word1 = c.word1 &&& bit_not 0xffffffff00000000 ||| (end <<< 32) }

unfoldable pub get_rwx : Cap → ℕ
get_rwx c = c.word0 >>> 16 &&& 0xff

unfoldable pub set_rwx : Cap → ℕ → Cap
set_rwx c rwx = record c { word0 = c.word0 &&& bit_not 0xff0000 ||| (rwx <<< 16) }

unfoldable pub get_free : Cap → ℕ
get_free c = c.word1 &&& 0xffffffff

unfoldable pub set_free : Cap → ℕ → Cap
set_free c free = record c { word1 = c.word1 &&& bit_not 0xffffffff ||| free }

unfoldable pub get_pmp : Cap → ℕ
get_pmp c = c.word0 >>> 8 &&& 0xff

unfoldable pub set_pmp : Cap → ℕ → Cap
set_pmp c pmp = record c { word0 = c.word0 &&& bit_not 0xff00 ||| (pmp <<< 8) }

unfoldable pub fields : Cap → Fields
fields c = record {
  begin = get_begin c;
  end = get_end c;
  rwx = get_rwx c;
  free = get_free c;
  pmp = get_pmp c;
}
