-- ===== src/Cap/Channels.antt =====
-- Ranges of IPC channels: `cap_mk_channels` and the accessors of api/s3k_cap.h.
pub mod Accessors
use separation_kernel.Prelude.{ℕ}
use separation_kernel.Prelude.Words.{◌<<<◌, ◌>>>◌, ◌&&&◌, ◌|||◌, bit_not}
use separation_kernel.Cap.CapType
use separation_kernel.Cap.Base.{Cap}

-- What such a capability says.
pub record Fields : Type 0 where
  pub begin : ℕ
  pub end : ℕ
  pub free : ℕ

unfoldable pub mk : (begin end free : ℕ) → Cap
mk begin end free = record {
  word0 = CapType.channels ||| (free <<< 8) ||| (end <<< 24) ||| (begin <<< 40);
  word1 = 0;
}

unfoldable pub get_begin : Cap → ℕ
get_begin c = c.word0 >>> 40 &&& 0xffff

unfoldable pub set_begin : Cap → ℕ → Cap
set_begin c begin = record c { word0 = c.word0 &&& bit_not 0xffff0000000000 ||| (begin <<< 40) }

unfoldable pub get_end : Cap → ℕ
get_end c = c.word0 >>> 24 &&& 0xffff

unfoldable pub set_end : Cap → ℕ → Cap
set_end c end = record c { word0 = c.word0 &&& bit_not 0xffff000000 ||| (end <<< 24) }

unfoldable pub get_free : Cap → ℕ
get_free c = c.word0 >>> 8 &&& 0xffff

unfoldable pub set_free : Cap → ℕ → Cap
set_free c free = record c { word0 = c.word0 &&& bit_not 0xffff00 ||| (free <<< 8) }

unfoldable pub fields : Cap → Fields
fields c = record { begin = get_begin c; end = get_end c; free = get_free c }
