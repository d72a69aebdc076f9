-- ===== src/Prelude/Words.antt =====
-- 64-bit words: the methods of `usize` that the sources call, and their laws.
use Prim.Native.Nat.{ℕ, zero, suc, ◌+◌, ◌-◌, ◌*◌, ◌/◌, ◌%◌, ◌^◌, ◌≤◌, ◌<◌}
use mathlib.Core.Path.{◌≡◌, refl, ap}
use mathlib.Core.Logic.{inl, inr}
use mathlib.Core.Bool.{Bool, true}
use native.Mathlib.Nat.{pow-suc, pow-le-pow_right, div-add-mod, mod-lt}
use native.Mathlib.Decide.{dec_le}
use native.Mathlib.Omega.{arith}
use aethalloc.Prelude.Tests.{◌==◌, ==_iff, if◌then◌else◌, Bool-cases}

abbrev pub usize_bits : ℕ
usize_bits = 64

-- The number of binary digits of `n`, of at most `f`.
unfoldable pub bit_len : ℕ → ℕ → ℕ
bit_len zero n = 0
bit_len (suc f) n = let rest = bit_len f (n / 2) in if n == 0 then 0 else suc rest

-- The zeros below the lowest one, of at most `f`.
unfoldable pub low_zeros : ℕ → ℕ → ℕ
low_zeros zero n = 0
low_zeros (suc f) n = let rest = low_zeros f (n / 2) in if n % 2 == 1 then 0 else suc rest

-- The ones among the lowest `f` digits.
unfoldable pub ones : ℕ → ℕ → ℕ
ones zero n = 0
ones (suc f) n = n % 2 + ones f (n / 2)

unfoldable pub leading_zeros : ℕ → ℕ
leading_zeros n = usize_bits - bit_len usize_bits n

unfoldable pub trailing_zeros : ℕ → ℕ
trailing_zeros n = low_zeros usize_bits n

unfoldable pub is_power_of_two : ℕ → Bool
is_power_of_two n = ones usize_bits n == 1

-- `x << s` as the release profile computes it: the amount is taken modulo the width.
unfoldable pub shl : ℕ → ℕ → ℕ
shl x s = x * 2 ^ (s % usize_bits) % 2 ^ usize_bits

unfoldable pub div_ceil : ℕ → ℕ → ℕ
div_ceil a b = if a % b == 0 then a / b else a / b + 1

-- Named on the `unfolding` line of a test that runs these.
unfoldable pub word_methods : ℕ
unfolding bit_len low_zeros ones leading_zeros trailing_zeros is_power_of_two shl div_ceil
word_methods = usize_bits

pub lt-bit_len : (f n : ℕ) → n < 2 ^ f → n < 2 ^ bit_len f n
unfolding bit_len
lt-bit_len zero n h = h
lt-bit_len (suc f) n h =
    ground (arith, pow-suc 2 f, lt-bit_len f (n / 2), pow-suc 2 (bit_len f (n / 2)))

pub bit_len-le : (f n : ℕ) → bit_len f n ≤ f
unfolding bit_len
bit_len-le zero n = omega arith
bit_len-le (suc f) n = ground (arith, bit_len-le f (n / 2))

pub bit_len-le_of_lt : (f k n : ℕ) → n < 2 ^ k → bit_len f n ≤ k
unfolding bit_len
bit_len-le_of_lt zero k n h = omega arith
bit_len-le_of_lt (suc f) zero n h = ground arith
bit_len-le_of_lt (suc f) (suc k) n h = ground (arith, pow-suc 2 k, bit_len-le_of_lt f k (n / 2))

-- For a positive number the power above it is at most twice it.
pub pow-bit_len-le : (f n : ℕ) → 0 < n → 2 ^ bit_len f n ≤ 2 * n
unfolding bit_len
pow-bit_len-le zero n h = omega arith
pow-bit_len-le (suc f) n h = elim (Bool-cases (n / 2 == 0)) [
  | inl e ↦ ground (arith, pow-suc 2 (bit_len f (n / 2)), bit_len_zero f)
  | inr e ↦ ground (arith, pow-suc 2 (bit_len f (n / 2)), pow-bit_len-le f (n / 2))
]
  where
    bit_len_zero : (f : ℕ) → bit_len f 0 ≡ 0
    bit_len_zero zero = refl
    bit_len_zero (suc f) = refl

ones-pos : (f n : ℕ) → n < 2 ^ f → 0 < n → 0 < ones f n
unfolding ones
ones-pos zero n h p = omega arith
ones-pos (suc f) n h p = ground (arith, pow-suc 2 f, ones-pos f (n / 2))

-- A number with a single one is a power of two.
pub pow_of_ones : (f n : ℕ) → n < 2 ^ f → ones f n ≡ 1 → (k : ℕ) × (n ≡ 2 ^ k) × (k < f)
unfolding ones
pow_of_ones zero n h e = absurd (omega arith)
pow_of_ones (suc f) n h e = elim (Bool-cases (n % 2 == 1)) [
  | inl odd ↦ (0, ground (arith, pow-suc 2 f, ones-pos f (n / 2)), omega arith)
  | inr even ↦
      let (k, p, q) = pow_of_ones f (n / 2) (omega (arith, pow-suc 2 f)) (ground arith) in
      (suc k, ground (arith, pow-suc 2 k), omega arith)
]

ones_zero : (f : ℕ) → ones f 0 ≡ 0
unfolding ones
ones_zero zero = refl
ones_zero (suc f) = omega (arith, ones_zero f)

pub ones-pow : (f k : ℕ) → k < f → ones f (2 ^ k) ≡ 1
unfolding ones
ones-pow zero k h = absurd (omega arith)
ones-pow (suc f) zero h = omega (arith, ones_zero f)
ones-pow (suc f) (suc k) h =
    let half : 2 ^ suc k / 2 ≡ 2 ^ k = omega (arith, pow-suc 2 k) in
    rw half (omega (arith, pow-suc 2 k, ones-pow f k (omega arith)))

pub low_zeros-pow : (f k : ℕ) → k < f → low_zeros f (2 ^ k) ≡ k
unfolding low_zeros
low_zeros-pow zero k h = absurd (omega arith)
low_zeros-pow (suc f) zero h = refl
low_zeros-pow (suc f) (suc k) h =
    let half : 2 ^ suc k / 2 ≡ 2 ^ k = omega (arith, pow-suc 2 k) in
    ground (arith, half, pow-suc 2 k, low_zeros-pow f k)

pub is_power_of_two-pow : (k : ℕ) → k < usize_bits → is_power_of_two (2 ^ k) ≡ true
unfolding is_power_of_two
is_power_of_two-pow k h = rw (ones-pow usize_bits k h)

pub pow_of_is_power_of_two :
    (n : ℕ)
    → n < 2 ^ usize_bits
    → is_power_of_two n ≡ true
    → (k : ℕ) × (n ≡ 2 ^ k) × (k < usize_bits)
unfolding is_power_of_two
pow_of_is_power_of_two n h e = pow_of_ones usize_bits n h ((==_iff _ _).0 e)

pub trailing_zeros-pow : (k : ℕ) → k < usize_bits → trailing_zeros (2 ^ k) ≡ k
unfolding trailing_zeros
trailing_zeros-pow k h = low_zeros-pow usize_bits k h

-- `div_ceil` rounds up.
pub div_ceil_bounds : (a b : ℕ) → 0 < b → (a ≤ div_ceil a b * b) × (div_ceil a b * b < a + b)
unfolding div_ceil
div_ceil_bounds a b h = grind (arith, div-add-mod, mod-lt)

pub pow_mono : (i j : ℕ) → i ≤ j → 2 ^ i ≤ 2 ^ j
pow_mono i j h = pow-le-pow_right (omega arith) h

-- No power of two lies strictly between two neighbours.
pub pow_gap : (a k : ℕ) → 2 ^ a < 2 ^ k → 2 ^ suc a ≤ 2 ^ k
pow_gap a k h = elim (dec_le k a) [
  | yes le ↦ absurd (omega (arith, pow_mono k a le))
  | no gt ↦ pow-le-pow_right (omega arith) (omega arith)
]

pub pow-le_of_lt_suc : (k a : ℕ) → 2 ^ k < 2 ^ suc a → 2 ^ k ≤ 2 ^ a
pow-le_of_lt_suc k a h = elim (dec_le k a) [
  | yes le ↦ pow_mono k a le
  | no gt ↦ absurd (omega (arith, pow_mono (suc a) k (omega arith)))
]

pub lt_of_pow_lt : (i j : ℕ) → 2 ^ i < 2 ^ j → i < j
lt_of_pow_lt i j h = elim (dec_le j i) [
  | yes le ↦ absurd (omega (arith, pow_mono j i le))
  | no gt ↦ omega arith
]

pub pow_split : (k d : ℕ) → 2 ^ (d + k) ≡ 2 ^ d * 2 ^ k
pow_split k zero = let e : 0 + k ≡ k = omega arith in rw e (omega arith)
pow_split k (suc d) =
    let e : suc d + k ≡ suc (d + k) = omega arith in
    rw e (omega (arith, pow-suc 2 (d + k), pow_split k d, ap (λ (x : ℕ). x * 2 ^ k) (pow-suc 2 d)))
