-- ===== src/Cap/Base.antt =====
-- `struct cap`, the types of capabilities, and their tests.
use separation_kernel.Prelude.{ℕ, ◌%◌, ◌^◌, ◌<◌, ◌≡◌, ◌∙◌, Bool, ◌==◌}
use separation_kernel.Prelude.Bits.{bit_and_mask, bit_and_comm}
use separation_kernel.Prelude.Words.{◌&&&◌}

pub record Cap : Type 0 where
  pub word0 : ℕ
  pub word1 : ℕ

abbrev pub null_cap : Cap
null_cap = record { word0 = 0; word1 = 0 }

unfoldable pub get_type : Cap → ℕ
get_type c = 0xff &&& c.word0

unfoldable pub is_type : Cap → ℕ → Bool
unfolding get_type
is_type c t = get_type c == t

-- Both words are 64 bits wide.
abbrev pub IsWord : Cap → Type 0
IsWord c = (c.word0 < 2 ^ 64) × (c.word1 < 2 ^ 64)

pub get_type_lem : (c : Cap) → get_type c ≡ c.word0 % 2 ^ 8
unfolding get_type
get_type_lem c = bit_and_comm 0xff c.word0 ∙ bit_and_mask 8 c.word0
