-- ===== src/Amo/Ring/Length.antt =====
-- `len`, `is_empty` and `is_full` against the two counters.
use native.Mathlib.Nat.{
  mul-add-mod_self_right, dvd-mul_left, mod-eq_of_lt, mod-lt, mod-add-mod, mod-eq-sub-mod,
  mod-mod_of_dvd,
}
use Prim.Native.Nat.{◌∣◌}
use native.Mathlib.Decide.{dec_lt}
use aethalloc.Prelude.{
  ℕ, suc, ◌+◌, ◌-◌, ◌*◌, ◌%◌, ◌^◌, ◌<◌, ◌≤◌, ◌≡◌, subst, ◌∙◌, sym, ap, arith, length, bit_and_mask,
  pow_split,
}
use aethalloc.Amo.Ring.{len}
use aethalloc.Amo.Ring.Index.{pow-pos}
use aethalloc.Amo.Ring.Threads.{System, Reach}
use aethalloc.Amo.Ring.Fifo.{Reach-Inv}

-- The difference of the indices of two counters less than `c` apart, taken round `m` times `c`.
index_gap : (c m t d : ℕ) → d < c → (suc m * c + (t + d) % c - t % c) % c ≡ d
index_gap c m t d h = elim (dec_lt (t % c + d) c) [
  | yes inside ↦
      let e : suc m * c + (t + d) % c - t % c ≡ suc m * c + d =
        omega (arith, mod-add-mod t c d, mod-eq_of_lt inside) in
      rw e (mul-add-mod_self_right (suc m) c d ∙ mod-eq_of_lt h)
  | no past ↦
      let below : t % c < c = mod-lt t {m = c} (omega arith) in
      let e : suc m * c + (t + d) % c - t % c ≡ m * c + d = omega (
        arith,
        mod-add-mod t c d,
        mod-eq-sub-mod {n = t % c + d} {m = c} (omega arith),
        mod-eq_of_lt {n = t % c + d - c} {m = c} (omega arith),
      ) in
      rw e (mul-add-mod_self_right m c d ∙ mod-eq_of_lt h)
]

dvd-pow : (k : ℕ) → k ≤ 64 → 2 ^ k ∣ 2 ^ 64
dvd-pow k h =
    let e : 64 - k + k ≡ 64 = omega arith in
    subst (λ n. 2 ^ k ∣ n) (sym (pow_split k (64 - k)) ∙ ap (λ (d : ℕ). 2 ^ d) e)
      (dvd-mul_left (2 ^ k) (2 ^ (64 - k)))

rounds : (k : ℕ) → k ≤ 64 → 2 ^ 64 ≡ suc (2 ^ (64 - k) - 1) * 2 ^ k
rounds k h =
    let e : 64 - k + k ≡ 64 = omega arith in
    let f : suc (2 ^ (64 - k) - 1) ≡ 2 ^ (64 - k) = omega (arith, pow-pos (64 - k)) in
    rw f (sym (ap (λ (d : ℕ). 2 ^ d) e) ∙ pow_split k (64 - k))

index_distance :
    (k t n : ℕ) → k ≤ 64 → t ≤ n → n < t + 2 ^ k → (2 ^ 64 + n % 2 ^ k - t % 2 ^ k) % 2 ^ k + t ≡ n
index_distance k t n h le lt =
    let back : t + (n - t) ≡ n = omega arith in
    let gap : (2 ^ 64 + (t + (n - t)) % 2 ^ k - t % 2 ^ k) % 2 ^ k ≡ n - t =
      subst (λ w. (w + (t + (n - t)) % 2 ^ k - t % 2 ^ k) % 2 ^ k ≡ n - t) (sym (rounds k h))
        (index_gap (2 ^ k) (2 ^ (64 - k) - 1) t (n - t) (omega arith)) in
    omega (arith, gap, ap (λ x. (2 ^ 64 + x % 2 ^ k - t % 2 ^ k) % 2 ^ k) back)

-- In every reachable state `len` is the number of entries in flight, for a capacity of at most
-- 2^64.
pub len_lem :
    (k : ℕ) {s : System}
    → k ≤ 64
    → Reach (2 ^ k) s
    → len (2 ^ k) s.ring + length s.popped ≡ length s.pushed
unfolding len
len_lem k {s} h r =
    let inv = Reach-Inv r in
    let gap = index_distance k (length s.popped) (length s.pushed) h (omega arith) (omega arith) in
    omega (
      arith,
      bit_and_mask k ((2 ^ 64 + s.ring.head - s.ring.tail) % 2 ^ 64),
      mod-mod_of_dvd (2 ^ k) (2 ^ 64 + s.ring.head - s.ring.tail) (dvd-pow k h),
      rw (← inv.head_at, ← inv.tail_at) at gap,
    )
