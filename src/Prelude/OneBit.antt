-- ===== src/Prelude/OneBit.antt =====
-- One bit of a word: the mask of it, and the words that have it alone.
use Prim.Native.Nat.{ℕ, zero, suc, ◌*◌, ◌/◌, ◌%◌, ◌^◌, bit_and}
use mathlib.Core.Path.{◌≡◌, refl, ap}
use mathlib.Core.Logic.{◌≢◌}
use native.Mathlib.Nat.{pow-suc, le_refl}
use native.Mathlib.Omega.{arith}
use aethalloc.Prelude.Bits.{bit_at, bit_and_step, bit_and-zero_below}

-- The bit at a position, cut out by a mask of one bit.
pub bit_and-pow : (t n : ℕ) → bit_and n (2 ^ t) ≡ bit_at n t * 2 ^ t
unfolding bit_at
bit_and-pow zero n =
    ground (arith, bit_and_step n 1, bit_and-zero_below (n / 2) (n / 2) (le_refl _))
bit_and-pow (suc t) n =
    let half : 2 ^ suc t / 2 ≡ 2 ^ t = omega (arith, pow-suc 2 t) in
    let even : 2 ^ suc t % 2 ≡ 0 = omega (arith, pow-suc 2 t) in
    let deeper : bit_at (n / 2) t * 2 ^ suc t ≡ 2 * (bit_at (n / 2) t * 2 ^ t) =
      omega (arith, ap (λ (x : ℕ). bit_at (n / 2) t * x) (pow-suc 2 t)) in
    let step = rw (half, even) at (bit_and_step n (2 ^ suc t)) in
    omega (arith, step, deeper, bit_and-pow t (n / 2))

pub bit_at-pow_self : (t : ℕ) → bit_at (2 ^ t) t ≡ 1
unfolding bit_at
bit_at-pow_self zero = refl
bit_at-pow_self (suc t) =
    let half : 2 ^ suc t / 2 ≡ 2 ^ t = omega (arith, pow-suc 2 t) in rw half (bit_at-pow_self t)

bit_at-zero : (t : ℕ) → bit_at 0 t ≡ 0
unfolding bit_at
bit_at-zero zero = refl
bit_at-zero (suc t) = bit_at-zero t

pub bit_at-pow_other : (t u : ℕ) → t ≢ u → bit_at (2 ^ t) u ≡ 0
unfolding bit_at
bit_at-pow_other zero zero apart = absurd (apart refl)
bit_at-pow_other zero (suc u) apart = bit_at-zero u
bit_at-pow_other (suc t) zero apart = omega (arith, pow-suc 2 t)
bit_at-pow_other (suc t) (suc u) apart =
    let half : 2 ^ suc t / 2 ≡ 2 ^ t = omega (arith, pow-suc 2 t) in
    rw half (bit_at-pow_other t u (λ e. apart (ap suc e)))
