-- ===== src/Cap/Valid/Empty.antt =====
-- The empty capability is well-formed.
use separation_kernel.Prelude.{◌≡◌, refl, arith}
use separation_kernel.Cap.Base.{null_cap, get_type}
use separation_kernel.Cap.CapType
use separation_kernel.Cap.Valid.Defs.{IsValid}

null_cap-type : get_type null_cap ≡ CapType.empty
unfolding get_type
null_cap-type = refl

pub null_cap-IsValid : IsValid null_cap
null_cap-IsValid = record {
  word = ground arith;
  memory = λ e. absurd (ground (arith, null_cap-type));
  hart = λ e. absurd (ground (arith, null_cap-type));
  time = λ e. absurd (ground (arith, null_cap-type));
  channels = λ e. absurd (ground (arith, null_cap-type));
  receiver = λ e. absurd (ground (arith, null_cap-type));
  sender = λ e. absurd (ground (arith, null_cap-type));
  server = λ e. absurd (ground (arith, null_cap-type));
  client = λ e. absurd (ground (arith, null_cap-type));
  supervisor = λ e. absurd (ground (arith, null_cap-type));
}
