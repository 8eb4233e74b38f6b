-- ===== src/Prelude/Bits.antt =====
-- `&` and `|` on words that are cut at a bit position, as arithmetic, at every width.
use Prim.Native.Nat.{
  ℕ, zero, suc, ◌+◌, ◌-◌, ◌*◌, ◌/◌, ◌%◌, ◌^◌, ◌≤◌, ◌<◌, min, max, digits, bitwise, bit_and, bit_or,
  bit_and-bitwise, bit_or-bitwise,
}
use mathlib.Core.Path.{◌≡◌, refl, sym, ap, ◌∙◌}
use native.Mathlib.Nat.{le_refl, pow-suc, one-le-pow, mod-lt, div-add-mod'}
use native.Mathlib.Omega.{arith}
use separation_kernel.Prelude.Words.{low_mask}

-- The library's operations recur on binary digits with fuel, the left word itself.
module _ (base : ℕ → ℕ) (op : ℕ → ℕ → ℕ) where
  -- Fuel beyond the left word changes nothing.
  spare_unit : (n x y : ℕ) → x ≤ n → digits base op (suc n) x y ≡ digits base op n x y
  spare_unit zero zero y h = refl
  spare_unit zero (suc x) y h = absurd (omega arith)
  spare_unit (suc n) zero y h = refl
  spare_unit (suc n) (suc x) y h =
      ap (λ (t : ℕ). t * 2 + op (suc x % 2) (y % 2))
        (spare_unit n (suc x / 2) (y / 2) (omega arith))

  spare_fuel : (extra n x y : ℕ) → x ≤ n → digits base op (extra + n) x y ≡ digits base op n x y
  spare_fuel zero n x y h =
      let none : 0 + n ≡ n = omega arith in ap (λ (m : ℕ). digits base op m x y) none
  spare_fuel (suc extra) n x y h =
      let more : suc extra + n ≡ suc (extra + n) = omega arith in
      ap (λ (m : ℕ). digits base op m x y) more
      ∙ spare_unit (extra + n) x y (omega arith)
      ∙ spare_fuel extra n x y h

  -- The lowest digit of a word that is not zero, and the rest.
  lowest_digit :
      (x y : ℕ)
      → 0 < x
      → bitwise base op x y ≡ bitwise base op (x / 2) (y / 2) * 2 + op (x % 2) (y % 2)
  lowest_digit zero y h = absurd (omega arith)
  lowest_digit (suc x) y h =
      let half = suc x / 2 in
      let enough : x ≡ (x - half) + half = omega arith in
      ap (λ (n : ℕ). digits base op n half (y / 2) * 2 + op (suc x % 2) (y % 2)) enough
      ∙ ap (λ (t : ℕ). t * 2 + op (suc x % 2) (y % 2))
          (spare_fuel (x - half) half half (y / 2) (omega arith))

bit_and_step : (x y : ℕ) → bit_and x y ≡ bit_and (x / 2) (y / 2) * 2 + min (x % 2) (y % 2)
bit_and_step zero y = omega (arith, bit_and-bitwise 0 y, bit_and-bitwise 0 (y / 2))
bit_and_step (suc x) y = simp bit_and-bitwise (lowest_digit (λ _. 0) min (suc x) y (omega arith))

bit_or_step : (x y : ℕ) → bit_or x y ≡ bit_or (x / 2) (y / 2) * 2 + max (x % 2) (y % 2)
bit_or_step zero y = omega (arith, bit_or-bitwise 0 y, bit_or-bitwise 0 (y / 2))
bit_or_step (suc x) y = simp bit_or-bitwise (lowest_digit (λ t. t) max (suc x) y (omega arith))

-- Fuel-bounded inductions on the left word.
bit_and-zero_below : (n a : ℕ) → a ≤ n → bit_and a 0 ≡ 0
bit_and-zero_below n zero h = refl
bit_and-zero_below zero (suc a) h = absurd (omega arith)
bit_and-zero_below (suc n) (suc a) h =
    omega (arith, bit_and_step (suc a) 0, bit_and-zero_below n (suc a / 2) (omega arith))

bit_or-zero_below : (n a : ℕ) → a ≤ n → bit_or a 0 ≡ a
bit_or-zero_below n zero h = refl
bit_or-zero_below zero (suc a) h = absurd (omega arith)
bit_or-zero_below (suc n) (suc a) h =
    omega (arith, bit_or_step (suc a) 0, bit_or-zero_below n (suc a / 2) (omega arith))

pub bit_and-zero : (a : ℕ) → bit_and a 0 ≡ 0
bit_and-zero a = bit_and-zero_below a a (le_refl _)

pub bit_or-zero : (a : ℕ) → bit_or a 0 ≡ a
bit_or-zero a = bit_or-zero_below a a (le_refl _)

pub zero-bit_or : (a : ℕ) → bit_or 0 a ≡ a
zero-bit_or a = bit_or-bitwise 0 a

-- One bit further up is twice as much.
shift-suc : (word k : ℕ) → word * 2 ^ suc k ≡ 2 * (word * 2 ^ k)
shift-suc word k =
    let double : 2 ^ suc k ≡ 2 ^ k * 2 = pow-suc 2 k in
    let scaled = ap (λ (power : ℕ). word * power) double in omega arith

-- Both words are cut at bit `k`.
pub bit_and_cut :
    (k a b r t : ℕ)
    → r < 2 ^ k
    → t < 2 ^ k
    → bit_and (a * 2 ^ k + r) (b * 2 ^ k + t) ≡ bit_and a b * 2 ^ k + bit_and r t
bit_and_cut zero a b r t p q = ground (arith, bit_and-zero 0)
bit_and_cut (suc k) a b r t p q = ground (
  arith,
  bit_and_step (a * 2 ^ suc k + r) (b * 2 ^ suc k + t),
  bit_and_step r t,
  shift-suc a k,
  shift-suc b k,
  shift-suc (bit_and a b) k,
  pow-suc 2 k,
  bit_and_cut k a b (r / 2) (t / 2) (omega (arith, pow-suc 2 k)) (omega (arith, pow-suc 2 k)),
)

pub bit_or_cut :
    (k a b r t : ℕ)
    → r < 2 ^ k
    → t < 2 ^ k
    → bit_or (a * 2 ^ k + r) (b * 2 ^ k + t) ≡ bit_or a b * 2 ^ k + bit_or r t
bit_or_cut zero a b r t p q = ground (arith, bit_or-zero 0)
bit_or_cut (suc k) a b r t p q = ground (
  arith,
  bit_or_step (a * 2 ^ suc k + r) (b * 2 ^ suc k + t),
  bit_or_step r t,
  shift-suc a k,
  shift-suc b k,
  shift-suc (bit_or a b) k,
  pow-suc 2 k,
  bit_or_cut k a b (r / 2) (t / 2) (omega (arith, pow-suc 2 k)) (omega (arith, pow-suc 2 k)),
)

two_pow-pos : (k : ℕ) → 0 < 2 ^ k
two_pow-pos k = one-le-pow k 2 (omega arith)

pub bit_and_mask_below : (k r : ℕ) → r < 2 ^ k → bit_and r (low_mask k) ≡ r
bit_and_mask_below zero r h = omega (arith, bit_and-zero r)
bit_and_mask_below (suc k) r h = ground (
  arith,
  bit_and_step r (low_mask (suc k)),
  pow-suc 2 k,
  two_pow-pos k,
  bit_and_mask_below k (r / 2),
)

bit_and_low : (k q r : ℕ) → r < 2 ^ k → bit_and (q * 2 ^ k + r) (low_mask k) ≡ r
bit_and_low k q r h = ground (
  arith,
  bit_and_cut k q 0 r (low_mask k) h,
  two_pow-pos k,
  bit_and-zero q,
  bit_and_mask_below k r h,
)

-- A mask of low bits is a remainder.
pub bit_and_mask : (k a : ℕ) → bit_and a (low_mask k) ≡ a % 2 ^ k
bit_and_mask k a = ground (arith, two_pow-pos k, bit_and_low k (a / 2 ^ k) (a % 2 ^ k))

bit_and_comm_below : (n a b : ℕ) → a ≤ n → b ≤ n → bit_and a b ≡ bit_and b a
bit_and_comm_below n zero b p q = omega (arith, bit_and-bitwise 0 b, bit_and-zero b)
bit_and_comm_below zero (suc a) b p q = absurd (omega arith)
bit_and_comm_below (suc n) (suc a) b p q = omega (
  arith,
  bit_and_step (suc a) b,
  bit_and_step b (suc a),
  bit_and_comm_below n (suc a / 2) (b / 2) (omega arith) (omega arith),
)

pub bit_and_comm : (a b : ℕ) → bit_and a b ≡ bit_and b a
bit_and_comm a b = bit_and_comm_below (a + b) a b (omega arith) (omega arith)

bit_and_assoc_below : (n a b c : ℕ) → a ≤ n → bit_and (bit_and a b) c ≡ bit_and a (bit_and b c)
bit_and_assoc_below n zero b c p =
    ap (λ (t : ℕ). bit_and t c) (bit_and-bitwise 0 b)
    ∙ bit_and-bitwise 0 c
    ∙ omega (arith, bit_and-bitwise 0 (bit_and b c))
bit_and_assoc_below zero (suc a) b c p = absurd (omega arith)
bit_and_assoc_below (suc n) (suc a) b c p =
    let left = bit_and_step (suc a) b in
    let half : bit_and (suc a) b / 2 ≡ bit_and (suc a / 2) (b / 2) = omega arith in
    let low : bit_and (suc a) b % 2 ≡ min (suc a % 2) (b % 2) = omega arith in
    let right = bit_and_step b c in
    let half' : bit_and b c / 2 ≡ bit_and (b / 2) (c / 2) = omega arith in
    let low' : bit_and b c % 2 ≡ min (b % 2) (c % 2) = omega arith in
    let again = bit_and_assoc_below n (suc a / 2) (b / 2) (c / 2) (omega arith) in
    let outer = bit_and_step (bit_and (suc a) b) c in
    let outer' = bit_and_step (suc a) (bit_and b c) in
    let inner = ap (λ (t : ℕ). bit_and t (c / 2)) half in
    let inner' = ap (λ (t : ℕ). bit_and (suc a / 2) t) half' in omega arith

-- A mask that is in another is in every mask that the other is in.
pub bit_and_within : (m c p : ℕ) → bit_and m c ≡ m → bit_and c p ≡ c → bit_and m p ≡ m
bit_and_within m c p inner outer =
    ap (λ (t : ℕ). bit_and t p) (sym inner)
    ∙ bit_and_assoc_below m m c p (le_refl _)
    ∙ ap (λ (t : ℕ). bit_and m t) outer
    ∙ inner

-- A field above the bits of `x` is added by `|`.
pub bit_or_above : (k x v : ℕ) → x < 2 ^ k → bit_or x (v * 2 ^ k) ≡ v * 2 ^ k + x
bit_or_above k x v h =
    ground (arith, bit_or_cut k 0 v x 0 h (two_pow-pos k), zero-bit_or v, bit_or-zero x)

-- `w & ~mask` clears the `k` bits from bit `s` of a word of `s + k + m` bits.
clear_field :
    (s k m q f lo : ℕ)
    → lo < 2 ^ s
    → f < 2 ^ k
    → q < 2 ^ m
    → bit_and ((q * 2 ^ k + f) * 2 ^ s + lo) (low_mask m * 2 ^ k * 2 ^ s + low_mask s)
      ≡ q * 2 ^ k * 2 ^ s + lo
clear_field s k m q f lo hl hf hq = ground (
  arith,
  bit_and_cut s (q * 2 ^ k + f) (low_mask m * 2 ^ k) lo (low_mask s) hl,
  bit_and_cut k q (low_mask m) f 0 hf (two_pow-pos k),
  bit_and_mask_below m q hq,
  bit_and_mask_below s lo hl,
  bit_and-zero f,
  two_pow-pos s,
)

-- `|` puts a value into a cleared field.
put_field :
    (s k q lo v : ℕ)
    → v < 2 ^ k
    → lo < 2 ^ s
    → bit_or (q * 2 ^ k * 2 ^ s + lo) (v * 2 ^ s) ≡ (q * 2 ^ k + v) * 2 ^ s + lo
put_field s k q lo v h l = ground (
  arith,
  bit_or_cut s (q * 2 ^ k) v lo 0 l (two_pow-pos s),
  bit_or_cut k q 0 0 v (two_pow-pos k) h,
  bit_or-zero q,
  zero-bit_or v,
  bit_or-zero lo,
)

-- A write of `v` to the `k` bits from bit `s`: the other bits of the word stay.
pub set_field :
    (s k m w v : ℕ)
    → v < 2 ^ k
    → w / 2 ^ s / 2 ^ k < 2 ^ m
    → bit_or (bit_and w (low_mask m * 2 ^ k * 2 ^ s + low_mask s)) (v * 2 ^ s)
      ≡ (w / 2 ^ s / 2 ^ k * 2 ^ k + v) * 2 ^ s + w % 2 ^ s
set_field s k m w v hv hw =
    let q = w / 2 ^ s in
    let lo_lt : w % 2 ^ s < 2 ^ s = mod-lt w (two_pow-pos s) in
    let f_lt : q % 2 ^ k < 2 ^ k = mod-lt q (two_pow-pos k) in
    let cut : w ≡ (q / 2 ^ k * 2 ^ k + q % 2 ^ k) * 2 ^ s + w % 2 ^ s =
      ground (arith, div-add-mod' w (2 ^ s), div-add-mod' q (2 ^ k)) in
    ap (λ (t : ℕ). bit_or (bit_and t (low_mask m * 2 ^ k * 2 ^ s + low_mask s)) (v * 2 ^ s)) cut
    ∙ ap (λ (t : ℕ). bit_or t (v * 2 ^ s))
        (clear_field s k m (q / 2 ^ k) (q % 2 ^ k) (w % 2 ^ s) lo_lt f_lt hw)
    ∙ put_field s k (q / 2 ^ k) (w % 2 ^ s) v hv lo_lt
