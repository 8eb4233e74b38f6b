-- ===== src/Cap/Pmp.antt =====
-- PMP frames: `cap_mk_pmp` and the accessors of api/s3k_cap.h.
pub mod Accessors
use separation_kernel.Prelude.{ℕ}
use separation_kernel.Prelude.Words.{◌<<<◌, ◌>>>◌, ◌&&&◌, ◌|||◌, bit_not}
use separation_kernel.Cap.CapType
use separation_kernel.Cap.Base.{Cap}

-- What such a capability says.
pub record Fields : Type 0 where
  pub addr : ℕ
  pub rwx : ℕ

unfoldable pub mk : (addr rwx : ℕ) → Cap
mk addr rwx = record { word0 = CapType.pmp ||| (rwx <<< 8) ||| (addr <<< 16); word1 = 0 }

unfoldable pub get_addr : Cap → ℕ
get_addr c = c.word0 >>> 16 &&& 0xffffffff

unfoldable pub set_addr : Cap → ℕ → Cap
set_addr c addr = record c { word0 = c.word0 &&& bit_not 0xffffffff0000 ||| (addr <<< 16) }

unfoldable pub get_rwx : Cap → ℕ
get_rwx c = c.word0 >>> 8 &&& 0xff

unfoldable pub set_rwx : Cap → ℕ → Cap
set_rwx c rwx = record c { word0 = c.word0 &&& bit_not 0xff00 ||| (rwx <<< 8) }

unfoldable pub fields : Cap → Fields
fields c = record { addr = get_addr c; rwx = get_rwx c }
