-- ===== src/Prelude/Words.antt =====
-- 64-bit words: C's operators on `uint64_t` and `unsigned long long`.
use Prim.Native.Nat.{ℕ, ◌-◌, ◌*◌, ◌/◌, ◌%◌, ◌^◌, bit_and, bit_or}

-- `x << k`: the bits that leave the word are lost.
infixl 55 ◌<<<◌ ◌>>>◌
abbrev pub ◌<<<◌ : ℕ → ℕ → ℕ
x <<< k = x * 2 ^ k % 2 ^ 64

abbrev pub ◌>>>◌ : ℕ → ℕ → ℕ
x >>> k = x / 2 ^ k

-- `x & y` and `x | y`.
infixl 54 ◌&&&◌
abbrev pub ◌&&&◌ : ℕ → ℕ → ℕ
x &&& y = bit_and x y

infixl 53 ◌|||◌
abbrev pub ◌|||◌ : ℕ → ℕ → ℕ
x ||| y = bit_or x y

-- `~x` of a 64-bit word.
abbrev pub bit_not : ℕ → ℕ
bit_not x = 2 ^ 64 - 1 - x

-- The `k` low bits set.
abbrev pub low_mask : ℕ → ℕ
low_mask k = 2 ^ k - 1
