-- ===== src/Amo/Ring/Index.antt =====
-- Indices modulo the capacity, a power of two.
use native.Mathlib.Nat.{
  mod-eq_of_lt, mod-eq-sub-mod, mod-add-mod, add-mod_right, mod-lt, one-le-pow,
}
use native.Mathlib.Decide.{dec_lt}
use aethalloc.Prelude.{ℕ, ◌+◌, ◌-◌, ◌%◌, ◌^◌, ◌<◌, ◌≤◌, ◌≡◌, ◌≢◌, ◌∙◌, ap, arith, bit_and_mask}
use aethalloc.Amo.Ring.{next_index}

pub next_index-mod : (k i : ℕ) → next_index (2 ^ k) (i % 2 ^ k) ≡ (i + 1) % 2 ^ k
unfolding next_index
next_index-mod k i = bit_and_mask k (i % 2 ^ k + 1) ∙ mod-add-mod i (2 ^ k) 1

-- Fewer than `cap` steps round the ring do not come back to the start, and `cap` steps do.
pub mod_apart : (cap i d : ℕ) → 0 < d → d < cap → (i + d) % cap ≢ i % cap
mod_apart cap i d p h e = elim (dec_lt (i % cap + d) cap) [
  | yes in_range ↦ omega (arith, mod-add-mod i cap d, mod-eq_of_lt in_range)
  | no past ↦ omega (
    arith,
    mod-add-mod i cap d,
    mod-lt i {m = cap} (omega arith),
    mod-eq-sub-mod {n = i % cap + d} {m = cap} (omega arith),
    mod-eq_of_lt {n = i % cap + d - cap} {m = cap}
        (omega (arith, mod-lt i {m = cap} (omega arith))),
  )
]

-- Of two counters less than the capacity apart, equal indices mean equal counters.
pub eq_of_mod-eq : (cap i j : ℕ) → i ≤ j → j < i + cap → j % cap ≡ i % cap → i ≡ j
eq_of_mod-eq cap i j h lt e = elim (dec_lt i j) [
  | yes below ↦
      let back : i + (j - i) ≡ j = omega arith in
      absurd (mod_apart cap i (j - i) (omega arith) (omega arith) (ap (λ n. n % cap) back ∙ e))
  | no same ↦ omega arith
]

pub pow-pos : (k : ℕ) → 0 < 2 ^ k
pow-pos k = one-le-pow k 2 (omega arith)

-- A counter whose next index differs from that of `c` is not yet a whole round past it.
pub has_room : (cap n c : ℕ) → n < c + cap → (n + 1) % cap ≢ c % cap → n + 1 < c + cap
has_room cap n c h ne = elim (dec_lt (n + 1) (c + cap)) [
  | yes lt ↦ lt
  | no full ↦
      let e : n + 1 ≡ c + cap = omega arith in
      absurd (ne (ap (λ i. i % cap) e ∙ add-mod_right c cap))
]
