-- ===== src/Cap/Server.antt =====
-- Servers of a channel: `cap_mk_server` and the accessors of api/s3k_cap.h.
pub mod Accessors
use separation_kernel.Prelude.{ℕ}
use separation_kernel.Prelude.Words.{◌<<<◌, ◌>>>◌, ◌&&&◌, ◌|||◌, bit_not}
use separation_kernel.Cap.CapType
use separation_kernel.Cap.Base.{Cap}

-- What such a capability says.
pub record Fields : Type 0 where
  pub channel : ℕ
  pub grant : ℕ

unfoldable pub mk : (channel grant : ℕ) → Cap
mk channel grant = record {
  word0 = CapType.server ||| (grant <<< 8) ||| (channel <<< 16);
  word1 = 0;
}

unfoldable pub get_channel : Cap → ℕ
get_channel c = c.word0 >>> 16 &&& 0xffff

unfoldable pub set_channel : Cap → ℕ → Cap
set_channel c channel = record c { word0 = c.word0 &&& bit_not 0xffff0000 ||| (channel <<< 16) }

unfoldable pub get_grant : Cap → ℕ
get_grant c = c.word0 >>> 8 &&& 0xff

unfoldable pub set_grant : Cap → ℕ → Cap
set_grant c grant = record c { word0 = c.word0 &&& bit_not 0xff00 ||| (grant <<< 8) }

unfoldable pub fields : Cap → Fields
fields c = record { channel = get_channel c; grant = get_grant c }
