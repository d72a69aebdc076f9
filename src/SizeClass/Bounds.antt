-- ===== src/SizeClass/Bounds.antt =====
-- What `round_up_pow2` and `alloc_size` return, for every request that an allocation can make.
use native.Mathlib.Nat.{pow-suc, mod-eq_of_lt}
use native.Mathlib.Decide.{dec_le}
use aethalloc.Prelude.{
  ℕ, zero, suc, ◌+◌, ◌-◌, ◌*◌, ◌%◌, ◌^◌, ◌≤◌, ◌<◌, ◌≡◌, ◌≢◌, ◌∙◌, inl, inr, arith, false,
  Bool-cases, usize_bits, max, pow_gap, pow-le_of_lt_suc, pow_mono, bit_len, leading_zeros,
  is_power_of_two, shl, lt-bit_len, bit_len-le, bit_len-le_of_lt, pow-bit_len-le, bit_len-le_of_lt,
  pow_of_is_power_of_two, is_power_of_two-pow, div_ceil_bounds,
}
use aethalloc.Page.{page_size}
use aethalloc.SizeClass.{SizeClass, tiny, small, medium, large, classify, round_up_pow2, alloc_size}

pub shl-pow : (a k : ℕ) → k < usize_bits → a * 2 ^ k < 2 ^ usize_bits → shl a k ≡ a * 2 ^ k
unfolding shl
shl-pow a k h fits = rw (mod-eq_of_lt h, mod-eq_of_lt fits)

-- The rounding of a positive size that is no power of two.
shl_bounds :
    (size : ℕ)
    → 0 < size
    → size < 2 ^ 63
    → (bit_len usize_bits size ≤ 63)
      × (shl 1 (usize_bits - leading_zeros size) ≡ 2 ^ bit_len usize_bits size)
unfolding leading_zeros
shl_bounds size p h =
    let le : bit_len usize_bits size ≤ 63 = bit_len-le_of_lt usize_bits 63 size h in
    let back : usize_bits - (usize_bits - bit_len usize_bits size) ≡ bit_len usize_bits size =
      omega arith in
    (
      le,
      rw back (
          shl-pow 1 (bit_len usize_bits size) (omega arith)
            (omega (arith, pow-bit_len-le usize_bits size p))
          ∙ omega arith),
    )

not_pow : (size k : ℕ) → k < usize_bits → is_power_of_two size ≡ false → size ≢ 2 ^ k
not_pow size k h e q = cc (is_power_of_two-pow k h)

-- The power of two above a size that is none is not its double.
pow-lt_double :
    (size k : ℕ)
    → k ≤ usize_bits
    → is_power_of_two size ≡ false
    → 0 < size
    → 2 ^ k ≤ 2 * size
    → 2 ^ k < 2 * size
pow-lt_double size zero h e p le = omega arith
pow-lt_double size (suc k) h e p le = omega (arith, pow-suc 2 k, not_pow size k (omega arith) e)

-- For 0 < size ≤ 2^63 the result of `round_up_pow2` is the least power of two from `size` on.
pub round_up_pow2_bounds :
    (size : ℕ)
    → 0 < size
    → size ≤ 2 ^ 63
    → (k : ℕ) × (round_up_pow2 size ≡ 2 ^ k) × (k ≤ 63) × (size ≤ 2 ^ k) × (2 ^ k < 2 * size)
unfolding round_up_pow2
round_up_pow2_bounds size p h = elim (Bool-cases (is_power_of_two size)) [
  | inl e ↦
      let (k, q, r) = pow_of_is_power_of_two size (omega arith) e in
      (k, ground arith, omega arith, omega arith, omega arith)
  | inr e ↦
      let below : size < 2 ^ 63 = omega (arith, not_pow size 63 (omega arith) e) in
      let (le, q) = shl_bounds size p below in
      (
        bit_len usize_bits size,
        ground arith,
        le,
        omega (arith, lt-bit_len usize_bits size (omega arith)),
        pow-lt_double size (bit_len usize_bits size) (omega arith) e p
            (pow-bit_len-le usize_bits size p),
      )
]

not_pow_above : (size : ℕ) → 2 ^ 63 < size → size < 2 ^ 64 → is_power_of_two size ≡ false
not_pow_above size lo hi = elim (Bool-cases (is_power_of_two size)) [
  | inl e ↦
      let (k, q, lt) = pow_of_is_power_of_two size hi e in
      absurd (omega (arith, pow_mono k 63 (omega arith)))
  | inr e ↦ e
]

bit_len-top : (size : ℕ) → 2 ^ 63 < size → size < 2 ^ 64 → bit_len usize_bits size ≡ 64
bit_len-top size lo hi = elim (dec_le 64 (bit_len usize_bits size)) [
  | yes le ↦ omega (arith, bit_len-le usize_bits size)
  | no lt ↦ absurd (
      omega
        (arith, lt-bit_len usize_bits size hi, pow_mono (bit_len usize_bits size) 63 (omega arith)))
]

-- For a 64-bit size past 2^63 `round_up_pow2`, whose shift amount is then the word's width, gives 1
-- in the release profile.
pub round_up_pow2_wraps : (size : ℕ) → 2 ^ 63 < size → size < 2 ^ 64 → round_up_pow2 size ≡ 1
unfolding round_up_pow2 leading_zeros shl
round_up_pow2_wraps size lo hi = ground (arith, not_pow_above size lo hi, bit_len-top size lo hi)

-- The range of the blocks of a class, and the waste that it allows.
pub Fits : SizeClass → ℕ → ℕ → Type 0
Fits tiny size n = (16 ≤ n) × (n ≤ 128) × (n ≤ max 16 (2 * size))
Fits small size n = (256 ≤ n) × (n ≤ 8192) × (n ≤ 2 * size)
Fits medium size n = (16384 ≤ n) × (n ≤ 262144) × (n ≤ 2 * size)
Fits large size n = (n % page_size ≡ 0) × (262144 < n) × (n < size + page_size)

-- For a request up to 2^63 the size that `alloc_size` gives in its class holds it and lies in the
-- range of the class.
pub alloc_size-classify :
    (size : ℕ)
    → size ≤ 2 ^ 63
    → (size ≤ alloc_size (classify size) size)
      × Fits (classify size) size (alloc_size (classify size) size)
unfolding classify alloc_size Fits
alloc_size-classify zero h = (omega arith, (omega arith, omega arith, omega arith))
alloc_size-classify (suc m) h =
    let (k, e, le, lo, hi) = round_up_pow2_bounds (suc m) (omega arith) h in
    ground (
      arith,
      e,
      lo,
      hi,
      pow_gap 7 k,
      pow-le_of_lt_suc k 7,
      pow_gap 13 k,
      pow-le_of_lt_suc k 13,
      pow-le_of_lt_suc k 18,
      div_ceil_bounds (suc m) page_size,
    )
