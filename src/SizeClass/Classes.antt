-- ===== src/SizeClass/Classes.antt =====
-- The classifications agree: each gives a request the class whose blocks are the rounded size.
use native.Mathlib.Nat.{pow-suc}
use aethalloc.Prelude.{
  ap, ℕ, zero, suc, ◌+◌, ◌-◌, ◌^◌, ◌≤◌, ◌<◌, ◌≡◌, refl, inl, inr, arith, none, some, max, leb,
  Bool-cases, trailing_zeros-pow, pow_mono, ◌⊎◌, pow-le_of_lt_suc, lt_of_pow_lt,
}
use aethalloc.SizeClass.{round_up_pow2, slab_index, class_table, size_to_class}
use aethalloc.SizeClass.Bounds.{round_up_pow2_bounds}

-- The rows of the `match`.
class_table-pow : (k : ℕ) → k < 13 → class_table (2 ^ (k + 4)) ≡ some k
unfolding class_table
class_table-pow zero h = refl
class_table-pow (suc zero) h = refl
class_table-pow (suc (suc zero)) h = refl
class_table-pow (suc (suc (suc zero))) h = refl
class_table-pow (suc (suc (suc (suc zero)))) h = refl
class_table-pow (suc (suc (suc (suc (suc zero))))) h = refl
class_table-pow (suc (suc (suc (suc (suc (suc zero)))))) h = refl
class_table-pow (suc (suc (suc (suc (suc (suc (suc zero))))))) h = refl
class_table-pow (suc (suc (suc (suc (suc (suc (suc (suc zero)))))))) h = refl
class_table-pow (suc (suc (suc (suc (suc (suc (suc (suc (suc zero))))))))) h = refl
class_table-pow (suc (suc (suc (suc (suc (suc (suc (suc (suc (suc zero)))))))))) h = refl
class_table-pow (suc (suc (suc (suc (suc (suc (suc (suc (suc (suc (suc zero))))))))))) h = refl
class_table-pow (suc (suc (suc (suc (suc (suc (suc (suc (suc (suc (suc (suc zero)))))))))))) h =
    refl
class_table-pow (suc (suc (suc (suc (suc (suc (suc (suc (suc (suc (suc (suc (suc k))))))))))))) h =
    absurd (omega arith)

class_table-above : (n : ℕ) → 65536 < n → class_table n ≡ none
unfolding class_table
class_table-above n h = ground arith

-- The rounded size as the power 16 * 2^c that the class `c` stands for.
rounded_class :
    (size : ℕ)
    → 0 < size
    → size ≤ 2 ^ 63
    → (c : ℕ) × (max (round_up_pow2 size) 16 ≡ 2 ^ (c + 4)) × (c ≤ 59)
rounded_class size p h =
    let (k, e, le, lo, hi) = round_up_pow2_bounds size p h in
    elim (Bool-cases (leb k 4)) [
      | inl below ↦ (0, omega (arith, pow_mono k 4 (ground arith), e), omega arith)
      | inr above ↦
          let back : k - 4 + 4 ≡ k = ground arith in
          (k - 4, rw back (omega (arith, pow_mono 4 k (ground arith), e)), omega arith)
    ]

-- A size from 1 to MAX_CACHE_SIZE has a class below 13 by `size_to_class`. What the size is rounded to
-- is 2^(class + 4): the least power of two from 2^4 on that holds the request.
pub size_to_class_total :
    (size : ℕ)
    → 0 < size
    → size ≤ 65536
    → (c : ℕ) × (size_to_class size ≡ some c)
      × (c < 13)
      × (max (round_up_pow2 size) 16 ≡ 2 ^ (c + 4))
      × (size ≤ 2 ^ (c + 4))
      × ((j : ℕ) → 4 ≤ j → size ≤ 2 ^ j → 2 ^ (c + 4) ≤ 2 ^ j)
unfolding size_to_class
size_to_class_total size p h =
    let (c, e, le) = rounded_class size p (omega arith) in
    let (k, q, kle, lo, hi) = round_up_pow2_bounds size p (omega arith) in
    let small : c < 13 = omega (arith, lt_of_pow_lt (c + 4) 17 (omega arith)) in
    let least : (j : ℕ) → 4 ≤ j → size ≤ 2 ^ j → 2 ^ (c + 4) ≤ 2 ^ j = λ j four holds.
      let below : k < suc j = lt_of_pow_lt k (suc j) (omega (arith, pow-suc 2 j)) in
      omega (arith, pow_mono k j (omega arith), pow_mono 4 j four) in
    (c, rw e (class_table-pow c small), small, e, omega arith, least)

pub size_to_class-pow :
    (c : ℕ)
    → c < 13
    → (max (round_up_pow2 (2 ^ (c + 4))) 16 ≡ 2 ^ (c + 4)) × (size_to_class (2 ^ (c + 4)) ≡ some c)
unfolding size_to_class
size_to_class-pow c h =
    let top = pow_mono (c + 4) 16 (omega arith) in
    let low = pow_mono 4 (c + 4) (omega arith) in
    let (k, q, kle, ge, lt) = round_up_pow2_bounds (2 ^ (c + 4)) (omega arith) (omega arith) in
    let above : k < suc (c + 4) = lt_of_pow_lt k (suc (c + 4)) (omega (arith, pow-suc 2 (c + 4))) in
    let below : c + 4 < suc k = lt_of_pow_lt (c + 4) (suc k) (omega (arith, pow-suc 2 k)) in
    let same : k ≡ c + 4 = omega arith in
    let e : max (round_up_pow2 (2 ^ (c + 4))) 16 ≡ 2 ^ (c + 4) =
      omega (arith, q, ap (λ (j : ℕ). 2 ^ j) same) in
    (e, rw e (class_table-pow c h))

-- `size_to_class` has no class for a size above MAX_CACHE_SIZE and up to 2^63.
pub size_to_class-none : (size : ℕ) → 65536 < size → size ≤ 2 ^ 63 → size_to_class size ≡ none
unfolding size_to_class
size_to_class-none size lo hi =
    let (k, q, kle, ge, lt) = round_up_pow2_bounds size (omega arith) hi in
    class_table-above (max (round_up_pow2 size) 16) (omega arith)

-- `slab_index` and `size_to_class` agree on the sizes from 9 to 8192.
pub slab_index-eq-size_to_class :
    (size : ℕ) → 8 < size → size ≤ 8192 → slab_index size ≡ size_to_class size
unfolding slab_index size_to_class
slab_index-eq-size_to_class size lo hi =
    let (k, q, kle, ge, lt) = round_up_pow2_bounds size (omega arith) (omega arith) in
    let above : 3 < k = lt_of_pow_lt 3 k (omega arith) in
    let below : k < 14 = lt_of_pow_lt k 14 (omega arith) in
    let back : k - 4 + 4 ≡ k = omega arith in
    let row : class_table (2 ^ k) ≡ some (k - 4) =
      rw back at (class_table-pow (k - 4) (omega arith)) in
    ground (arith, q, row, trailing_zeros-pow k (omega arith), pow_mono 4 k (omega arith))

-- `slab_index` refuses what is past 8 KiB, and also what is below 9 bytes.
pub slab_index-none : (size : ℕ) → (size ≤ 8) ⊎ (8192 < size) → slab_index size ≡ none
unfolding slab_index
slab_index-none zero h = refl
slab_index-none (suc m) (inl le) =
    let (k, q, kle, ge, lt) = round_up_pow2_bounds (suc m) (omega arith) (omega arith) in
    ground (arith, pow-le_of_lt_suc k 3 (omega arith))
slab_index-none (suc m) (inr gt) = ground arith
