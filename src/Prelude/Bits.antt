-- ===== src/Prelude/Bits.antt =====
-- The bits of a number, and the native bit operations digit by digit.
use Prim.Native.Nat.{
  ℕ, zero, suc, ◌+◌, ◌*◌, ◌/◌, ◌%◌, ◌-◌, ◌^◌, ◌<◌, ◌≤◌, min, max, digits, bitwise, bit_and, bit_or,
  bit_and-bitwise, bit_or-bitwise,
}
use mathlib.Core.Path.{◌≡◌, refl, ap, ◌∙◌}
use native.Mathlib.Nat.{le_refl, pow-suc, one-le-pow}
use native.Mathlib.Omega.{arith}
use native.Mathlib.Decide.{dec_le}

-- The bit of `n` at position `t`, 0 or 1.
unfoldable pub bit_at : ℕ → ℕ → ℕ
bit_at n zero = n % 2
bit_at n (suc t) = bit_at (n / 2) t

-- A round of fuel that is not needed changes nothing.
spare_round :
    (z : ℕ → ℕ) (f : ℕ → ℕ → ℕ) (fuel x y : ℕ)
    → x ≤ fuel
    → digits z f (suc fuel) x y ≡ digits z f fuel x y
spare_round z f zero zero y h = refl
spare_round z f zero (suc x) y h = absurd (omega arith)
spare_round z f (suc fuel) zero y h = refl
spare_round z f (suc fuel) (suc x) y h =
    let less = spare_round z f fuel (suc x / 2) (y / 2) (omega arith) in rw less refl

spare_rounds :
    (z : ℕ → ℕ) (f : ℕ → ℕ → ℕ) (more x y : ℕ) → digits z f (more + x) x y ≡ digits z f x x y
spare_rounds z f zero x y = let e : 0 + x ≡ x = omega arith in rw e refl
spare_rounds z f (suc more) x y =
    let e : suc more + x ≡ suc (more + x) = omega arith in
    rw e (spare_round z f (more + x) x y (omega arith) ∙ spare_rounds z f more x y)

-- The last digit of a bitwise operation, and the rest of it.
last_digit :
    (z : ℕ → ℕ) (f : ℕ → ℕ → ℕ) (x y : ℕ)
    → bitwise z f (suc x) y ≡ f (suc x % 2) (y % 2) + 2 * bitwise z f (suc x / 2) (y / 2)
last_digit z f x y =
    let half = suc x / 2 in
    let e : x - half + half ≡ x = omega arith in
    let same = rw e at (spare_rounds z f (x - half) half (y / 2)) in omega (arith, same)

pub bit_or_step : (x y : ℕ) → bit_or x y ≡ max (x % 2) (y % 2) + 2 * bit_or (x / 2) (y / 2)
bit_or_step zero y = simp bit_or-bitwise (omega arith)
bit_or_step (suc x) y = simp bit_or-bitwise (last_digit (λ (rest : ℕ). rest) max x y)

pub bit_and_step : (x y : ℕ) → bit_and x y ≡ min (x % 2) (y % 2) + 2 * bit_and (x / 2) (y / 2)
bit_and_step zero y = simp bit_and-bitwise (omega arith)
bit_and_step (suc x) y = simp bit_and-bitwise (last_digit (λ (rest : ℕ). 0) min x y)

pub bit_at-bit_or : (t a b : ℕ) → bit_at (bit_or a b) t ≡ max (bit_at a t) (bit_at b t)
unfolding bit_at
bit_at-bit_or zero a b = omega (arith, bit_or_step a b)
bit_at-bit_or (suc t) a b =
    let half : bit_or a b / 2 ≡ bit_or (a / 2) (b / 2) = omega (arith, bit_or_step a b) in
    rw half (bit_at-bit_or t (a / 2) (b / 2))

pub bit_at-bit_and : (t a b : ℕ) → bit_at (bit_and a b) t ≡ min (bit_at a t) (bit_at b t)
unfolding bit_at
bit_at-bit_and zero a b = omega (arith, bit_and_step a b)
bit_at-bit_and (suc t) a b =
    let half : bit_and a b / 2 ≡ bit_and (a / 2) (b / 2) = omega (arith, bit_and_step a b) in
    rw half (bit_at-bit_and t (a / 2) (b / 2))

pub bit_at-le : (t n : ℕ) → bit_at n t ≤ 1
unfolding bit_at
bit_at-le zero n = omega arith
bit_at-le (suc t) n = bit_at-le t (n / 2)

pub bit_and-zero_below : (n a : ℕ) → a ≤ n → bit_and a 0 ≡ 0
bit_and-zero_below n zero h = omega (arith, bit_and_step 0 0)
bit_and-zero_below zero (suc a) h = absurd (omega arith)
bit_and-zero_below (suc n) (suc a) h =
    omega (arith, bit_and_step (suc a) 0, bit_and-zero_below n (suc a / 2) (omega arith))

bit_or-zero_below : (n a : ℕ) → a ≤ n → bit_or a 0 ≡ a
bit_or-zero_below n zero h = refl
bit_or-zero_below zero (suc a) h = absurd (omega arith)
bit_or-zero_below (suc n) (suc a) h =
    omega (arith, bit_or_step (suc a) 0, bit_or-zero_below n (suc a / 2) (omega arith))

double_mul : (q k : ℕ) → q * 2 ^ suc k ≡ 2 * (q * 2 ^ k)
double_mul q k = omega (arith, ap (λ (t : ℕ). q * t) (pow-suc 2 k))

-- The mask of `k` ones keeps the low part of a number that is written in two.
pub bit_and_low : (k q r : ℕ) → r < 2 ^ k → bit_and (q * 2 ^ k + r) (2 ^ k - 1) ≡ r
bit_and_low zero q r h =
    let e : 2 ^ 0 - 1 ≡ 0 = refl in
    rw e (omega (arith, bit_and-zero_below (q * 2 ^ 0 + r) (q * 2 ^ 0 + r) (le_refl _)))
bit_and_low (suc k) q r h = ground (
  arith,
  bit_and_step (q * 2 ^ suc k + r) (2 ^ suc k - 1),
  double_mul q k,
  pow-suc 2 k,
  one-le-pow k 2,
  bit_and_low k q (r / 2),
)

pub bit_and_mask : (k a : ℕ) → bit_and a (2 ^ k - 1) ≡ a % 2 ^ k
bit_and_mask k a = ground (arith, one-le-pow k 2, bit_and_low k (a / 2 ^ k) (a % 2 ^ k))

-- Fields that do not overlap are joined by addition.
pub bit_or_low : (k q r : ℕ) → r < 2 ^ k → bit_or (q * 2 ^ k) r ≡ q * 2 ^ k + r
bit_or_low zero q r h = ground (arith, bit_or-zero_below q q)
bit_or_low (suc k) q r h =
    ground
      (arith, bit_or_step (q * 2 ^ suc k) r, double_mul q k, pow-suc 2 k, bit_or_low k q (r / 2))

bit_or-zero_left : (f n : ℕ) → n ≤ f → bit_or 0 n ≡ n
bit_or-zero_left zero n h = let e : n ≡ 0 = omega arith in rw e refl
bit_or-zero_left (suc f) n h = elim (dec_le n 0) [
  | yes le ↦ let e : n ≡ 0 = omega arith in rw e refl
  | no gt ↦
      let half : n / 2 ≤ f = omega arith in
      omega (arith, bit_or_step 0 n, bit_or-zero_left f (n / 2) half)
]

pub bit_or_high : (k q r : ℕ) → r < 2 ^ k → bit_or r (q * 2 ^ k) ≡ q * 2 ^ k + r
bit_or_high zero q r h =
    let e : r ≡ 0 = omega arith in
    rw e (bit_or-zero_left (q * 2 ^ 0) (q * 2 ^ 0) (omega arith) ∙ omega arith)
bit_or_high (suc k) q r h =
    ground
      (arith, bit_or_step r (q * 2 ^ suc k), double_mul q k, pow-suc 2 k, bit_or_high k q (r / 2))

-- Both masks of a word that is cut at bit `k`, of `w` more bits above.
pub bit_and_high :
    (k w q r : ℕ)
    → q < 2 ^ w
    → r < 2 ^ k
    → bit_and (q * 2 ^ k + r) ((2 ^ w - 1) * 2 ^ k) ≡ q * 2 ^ k
bit_and_high zero w q r hq h =
    let e : q * 2 ^ 0 + r ≡ q = omega arith in
    let m : (2 ^ w - 1) * 2 ^ 0 ≡ 2 ^ w - 1 = omega arith in
    rw (e, m) (ground (arith, bit_and_low w 0 q))
bit_and_high (suc k) w q r hq h = ground (
  arith,
  bit_and_step (q * 2 ^ suc k + r) ((2 ^ w - 1) * 2 ^ suc k),
  double_mul q k,
  double_mul (2 ^ w - 1) k,
  pow-suc 2 k,
  bit_and_high k w q (r / 2),
)
