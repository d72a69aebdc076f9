-- ===== src/Hess/Cheri/Tags.antt =====
-- Which tag `allocate_tag` answers, and its release.
use aethalloc.Prelude.{
  ℕ, zero, suc, ◌+◌, ◌-◌, ◌*◌, ◌/◌, ◌%◌, ◌^◌, ◌≤◌, ◌<◌, ◌≡◌, ◌≢◌, refl, ◌∙◌, sym, ap, arith, true,
  false, ◌⊎◌, inl, inr, Bool-cases, ◌==◌, ◌||◌, ltb, bit_at, bit_and, bit_or, bit_at-bit_or,
  bit_at-bit_and, bit_at-le, bit_and-pow, bit_at-pow_self, bit_at-pow_other, pow_mono,
}
use native.Mathlib.Nat.{pow-suc, one-le-pow}
use aethalloc.Hess.{TagError, Outcome, ok, err}
use aethalloc.Hess.Cheri.{CheriTagManager, search_tag, allocate_tag, free_tag}

small_pow : (t : ℕ) → t ≤ 15 → 2 ^ t % 2 ^ 16 ≡ 2 ^ t
small_pow t le = omega (arith, pow_mono t 15 le)

-- The test of the loop reads one bit.
test_bit :
    (t n : ℕ)
    → t ≤ 15
    → (((bit_and n (2 ^ t % 2 ^ 16) == 0) ≡ true) × (bit_at n t ≡ 0))
      ⊎ (((bit_and n (2 ^ t % 2 ^ 16) == 0) ≡ false) × (bit_at n t ≡ 1))
test_bit t n le =
    let word : bit_and n (2 ^ t % 2 ^ 16) ≡ bit_at n t * 2 ^ t =
      rw (small_pow t le) (bit_and-pow t n) in
    let pos = one-le-pow t 2 (omega arith) in
    elim (Bool-cases (bit_at n t == 0)) [
      | inl none ↦
          let e : bit_at n t ≡ 0 = ground arith in
          let w : bit_and n (2 ^ t % 2 ^ 16) ≡ 0 = word ∙ rw e (omega arith) in inl (rw w refl, e)
      | inr some_bit ↦
          let e : bit_at n t ≡ 1 = ground (arith, bit_at-le t n) in
          let w : bit_and n (2 ^ t % 2 ^ 16) ≡ 2 ^ t = word ∙ rw e (omega arith) in
          inr (rw w (ground (arith, pos)), e)
    ]

-- What the loop answers from the tag `from` on.
abbrev Found : (left from : ℕ) → CheriTagManager → Outcome ℕ × CheriTagManager → Type 0
Found left from m (r, m') =
    ((tag : ℕ) × (r ≡ ok tag)
      × (from ≤ tag)
      × (tag < from + left)
      × (bit_at m.used_tags tag ≡ 0)
      × ((u : ℕ) → from ≤ u → u < tag → bit_at m.used_tags u ≡ 1)
      × (m'.used_tags ≡ bit_or m.used_tags (2 ^ tag)))
    ⊎ ((r ≡ err TagError.out_of_tags)
        × ((u : ℕ) → from ≤ u → u < from + left → bit_at m.used_tags u ≡ 1)
        × (m' ≡ m))

search_tag_lem :
    (left from : ℕ) (m : CheriTagManager)
    → from + left ≤ 16
    → Found left from m (search_tag left from m)
unfolding search_tag
search_tag_lem zero from m h = inr (refl, (λ u lo hi. absurd (omega arith)), refl)
search_tag_lem (suc left) from m h = elim (test_bit from m.used_tags (omega arith)) [
  | inl (free, e) ↦ rw free (
      inl (
        from,
        refl,
        omega arith,
        omega arith,
        e,
        (λ u lo hi. absurd (omega arith)),
        ap (bit_or m.used_tags) (small_pow from (omega arith)),
      ))
  | inr (used, e) ↦ rw used (elim (search_tag_lem left (from + 1) m (omega arith)) [
    | inl (tag, r, lo, hi, free, others, marked) ↦ inl (
      tag,
      r,
      omega arith,
      omega arith,
      free,
      (λ u lo' hi'. elim (Bool-cases (u == from)) [
        | inl same ↦ let at : u ≡ from = ground arith in rw at e
        | inr differs ↦ others u (ground arith) hi'
      ]),
      marked,
    )
    | inr (r, others, same_tags) ↦ inr (
      r,
      (λ u lo' hi'. elim (Bool-cases (u == from)) [
        | inl same ↦ let at : u ≡ from = ground arith in rw at e
        | inr differs ↦ others u (ground arith) (omega arith)
      ]),
      same_tags,
    )
  ])
]

-- Each bit below the top one of a mask is set.
ones_bit : (k u : ℕ) → u < k → bit_at (2 ^ k - 1) u ≡ 1
unfolding bit_at
ones_bit zero u h = absurd (omega arith)
ones_bit (suc k) zero h = omega (arith, pow-suc 2 k, one-le-pow k 2 (omega arith))
ones_bit (suc k) (suc u) h =
    let half : (2 ^ suc k - 1) / 2 ≡ 2 ^ k - 1 =
      omega (arith, pow-suc 2 k, one-le-pow k 2 (omega arith)) in
    rw half (ones_bit k u (omega arith))

-- Each bit but one of a mask with a hole is set.
hole_bit :
    (k t u : ℕ)
    → t < k
    → u < k
    → ((t ≡ u) × (bit_at (2 ^ k - 1 - 2 ^ t) u ≡ 0))
      ⊎ ((t ≢ u) × (bit_at (2 ^ k - 1 - 2 ^ t) u ≡ 1))
unfolding bit_at
hole_bit zero t u h h' = absurd (omega arith)
hole_bit (suc k) zero zero h h' =
    inl (refl, omega (arith, pow-suc 2 k, one-le-pow k 2 (omega arith)))
hole_bit (suc k) zero (suc u) h h' =
    let half : (2 ^ suc k - 1 - 2 ^ 0) / 2 ≡ 2 ^ k - 1 =
      omega (arith, pow-suc 2 k, one-le-pow k 2 (omega arith)) in
    inr ((λ e. omega arith), rw half (ones_bit k u (omega arith)))
hole_bit (suc k) (suc t) zero h h' =
    let pos = one-le-pow k 2 (omega arith) in
    inr (
      (λ e. omega arith),
      omega (arith, pow-suc 2 k, pow-suc 2 t, pow_mono (suc t) k (omega arith), pos),
    )
hole_bit (suc k) (suc t) (suc u) h h' =
    let half : (2 ^ suc k - 1 - 2 ^ suc t) / 2 ≡ 2 ^ k - 1 - 2 ^ t =
      omega (arith, pow-suc 2 k, pow-suc 2 t, pow_mono (suc t) k (omega arith)) in
    elim (hole_bit k t u (omega arith) (omega arith)) [
      | inl (e, b) ↦ inl (ap suc e, rw half b)
      | inr (ne, b) ↦ inr ((λ e. ne (omega arith)), rw half b)
    ]

-- `allocate_tag` of the CHERI manager answers the least tag from 1 to 15 that is not used, and marks it and
-- no other, or answers OutOfTags where all are used, and then changes nothing.
pub allocate_tag_least :
    (m : CheriTagManager)
    → let (r, m') = allocate_tag m in
      ((tag : ℕ) × (r ≡ ok tag)
        × (1 ≤ tag)
        × (tag ≤ 15)
        × (bit_at m.used_tags tag ≡ 0)
        × ((u : ℕ) → 1 ≤ u → u < tag → bit_at m.used_tags u ≡ 1)
        × (bit_at m'.used_tags tag ≡ 1)
        × ((u : ℕ) → u ≢ tag → bit_at m'.used_tags u ≡ bit_at m.used_tags u))
      ⊎ ((r ≡ err TagError.out_of_tags)
          × ((u : ℕ) → 1 ≤ u → u ≤ 15 → bit_at m.used_tags u ≡ 1)
          × (m' ≡ m))
unfolding allocate_tag
allocate_tag_least m = elim (search_tag_lem 15 1 m (omega arith)) [
  | inl (tag, r, lo, hi, free, others, marked) ↦ inl (
    tag,
    r,
    lo,
    omega arith,
    free,
    others,
    rw marked (
        omega (
          arith,
          bit_at-bit_or tag m.used_tags (2 ^ tag),
          bit_at-pow_self tag,
          bit_at-le tag m.used_tags,
        )),
    (λ u ne. rw marked (
        omega (
          arith,
          bit_at-bit_or u m.used_tags (2 ^ tag),
          bit_at-pow_other tag u (λ e. ne (sym e)),
        ))),
  )
  | inr (r, others, same) ↦ inr (r, (λ u lo hi. others u lo (omega arith)), same)
]

-- Where `allocate_tag` answers a tag, `free_tag` of that tag succeeds, and each of the 16 bits of the used
-- tags is then as it was before.
pub free_tag-allocate_tag :
    (u : ℕ) (m : CheriTagManager)
    → u ≤ 15
    → let (r, m') = allocate_tag m in
      (r ≡ err TagError.out_of_tags)
      ⊎ ((tag : ℕ) × (r ≡ ok tag)
          × ((free_tag tag m').0 ≡ ok tt)
          × (bit_at (free_tag tag m').1.used_tags u ≡ bit_at m.used_tags u))
unfolding free_tag
free_tag-allocate_tag u m le = elim (allocate_tag_least m) [
  | inr (r, _, _) ↦ inl r
  | inl (tag, r, lo, hi, free, _, marked, kept) ↦
      let m' = (allocate_tag m).1 in
      let valid : ((tag == 0) || ltb 15 tag) ≡ false = ground arith in
      let mask = 2 ^ 16 - 1 - 2 ^ tag in
      let bits : bit_at (bit_and m'.used_tags mask) u ≡ bit_at m.used_tags u =
        elim (hole_bit 16 tag u (omega arith) (omega arith)) [
          | inl (same, hole) ↦
              let was : bit_at m.used_tags u ≡ 0 = rw same at free in
              omega (arith, bit_at-bit_and u m'.used_tags mask, hole, was)
          | inr (other, solid) ↦
              let as_before = kept u (λ e. other (sym e)) in
              omega (
                arith,
                bit_at-bit_and u m'.used_tags mask,
                solid,
                as_before,
                bit_at-le u m'.used_tags,
              )
        ] in
      inr (tag, r, rw valid refl, rw (valid, small_pow tag hi) bits)
]
