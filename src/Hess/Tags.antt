-- ===== src/Hess/Tags.antt =====
-- Which tag `allocate_tag` answers.
use native.Mathlib.Nat.{one-le-pow}
use aethalloc.Prelude.{
  pow_mono, bit_and-pow, bit_at-pow_self, bit_at-pow_other, ℕ, zero, suc, ◌+◌, ◌-◌, ◌*◌, ◌%◌, ◌^◌,
  ◌≤◌, ◌<◌, ◌≡◌, ◌≢◌, refl, ◌∙◌, sym, arith, true, false, bit_at, bit_or, bit_at-bit_or, bit_at-le,
  ◌⊎◌, inl, inr, Bool-cases, not, ◌==◌, leb,
}
use aethalloc.Hess.{
  TagError, Outcome, ok, err, SoftwareTagManager, is_tag_used, mark_tag_used, next_tag_after,
  search_tag, allocate_tag,
}

small_pow : (t : ℕ) → t ≤ 15 → 2 ^ t % 2 ^ 16 ≡ 2 ^ t
small_pow t le = omega (arith, pow_mono t 15 le)

is_tag_used_lem :
    (t : ℕ) (m : SoftwareTagManager)
    → t ≤ 15
    → is_tag_used t m ≡ not (bit_at m.used_tags t * 2 ^ t == 0)
unfolding is_tag_used
is_tag_used_lem t m le = rw (small_pow t le, bit_and-pow t m.used_tags) refl

-- The tag itself is used once it is marked.
is_tag_used-mark_tag_used :
    (t : ℕ) (m : SoftwareTagManager) → t ≤ 15 → is_tag_used t (mark_tag_used t m) ≡ true
unfolding mark_tag_used
is_tag_used-mark_tag_used t m le =
    let one : bit_at (bit_or m.used_tags (2 ^ t)) t ≡ 1 =
      omega
        (arith, bit_at-bit_or t m.used_tags (2 ^ t), bit_at-pow_self t, bit_at-le t m.used_tags) in
    let pos = one-le-pow t 2 (omega arith) in
    is_tag_used_lem t _ le ∙ rw (small_pow t le, one) (ground (arith, pos))

is_tag_used-mark_other :
    (t u : ℕ) (m : SoftwareTagManager)
    → t ≤ 15
    → u ≤ 15
    → t ≢ u
    → is_tag_used u (mark_tag_used t m) ≡ is_tag_used u m
unfolding mark_tag_used
is_tag_used-mark_other t u m le le' apart =
    let same : bit_at (bit_or m.used_tags (2 ^ t)) u ≡ bit_at m.used_tags u =
      omega (arith, bit_at-bit_or u m.used_tags (2 ^ t), bit_at-pow_other t u apart) in
    is_tag_used_lem u _ le' ∙ rw (small_pow t le, same) (sym (is_tag_used_lem u m le'))

-- What one search answers, as seen at the tag `u`.
abbrev Search : (rounds u : ℕ) → SoftwareTagManager → Outcome ℕ × SoftwareTagManager → Type 0
Search rounds u m (r, m') =
    ((tag : ℕ) × (r ≡ ok tag)
      × (0 < tag)
      × (tag ≤ 15)
      × (is_tag_used tag m ≡ false)
      × (is_tag_used tag m' ≡ true)
      × ((u ≡ tag) ⊎ (is_tag_used u m' ≡ is_tag_used u m)))
    ⊎ ((r ≡ err TagError.out_of_tags)
        × ((is_tag_used u m ≡ true) ⊎ (rounds ≤ (u + 15 - m.next_tag) % 15)))

is_tag_used-next :
    (t next : ℕ) (m : SoftwareTagManager)
    → is_tag_used t (record m { next_tag = next }) ≡ is_tag_used t m
unfolding is_tag_used
is_tag_used-next t next m = refl

-- The next tag is one nearer to any other tag.
next_tag_after_lem :
    (n : ℕ)
    → 0 < n
    → n ≤ 15
    → (0 < next_tag_after n)
      × (next_tag_after n ≤ 15)
      × (((n ≡ 15) × (next_tag_after n ≡ 1)) ⊎ ((n < 15) × (next_tag_after n ≡ n + 1)))
unfolding next_tag_after
next_tag_after_lem n p le = elim (Bool-cases (leb 15 n)) [
  | inl top ↦ rw top (omega arith, omega arith, inl (ground arith, refl))
  | inr below ↦ rw below (omega arith, ground arith, inr (ground arith, refl))
]

search_tag_lem :
    (rounds u : ℕ) (m : SoftwareTagManager)
    → 0 < u
    → u ≤ 15
    → 0 < m.next_tag
    → m.next_tag ≤ 15
    → Search rounds u m (search_tag rounds m)
unfolding search_tag
search_tag_lem zero u m p le q h = inr (refl, inr (omega arith))
search_tag_lem (suc rounds) u m p le q h =
    let n = m.next_tag in
    let m' : SoftwareTagManager = record m { next_tag = next_tag_after n } in
    let (lo, hi, next) = next_tag_after_lem n q h in
    let at = λ (t : ℕ). is_tag_used-next t (next_tag_after n) m in
    elim (Bool-cases (is_tag_used n m')) [
      | inl used ↦ rw used (elim (search_tag_lem rounds u m' p le lo hi) [
        | inl (tag, e, pos, small, unused, marked, other) ↦ inl (
          tag,
          e,
          pos,
          small,
          sym (at tag) ∙ unused,
          marked,
          elim other [ inl same ↦ inl same | inr kept ↦ inr (kept ∙ at u) ],
        )
        | inr (e, inl known) ↦ inr (e, inl (sym (at u) ∙ known))
        | inr (e, inr far) ↦ elim (Bool-cases (u == n)) [
          | inl same ↦ let it : u ≡ n = ground arith in inr (e, inl (rw it (sym (at n) ∙ used)))
          | inr differs ↦
              let apart : u ≢ n = ground arith in inr (e, inr (omega (arith, next, apart)))
        ]
      ])
      | inr free ↦ rw free (
          inl (
            n,
            refl,
            q,
            h,
            sym (at n) ∙ free,
            is_tag_used-mark_tag_used n m' h,
            elim (Bool-cases (u == n)) [
              | inl same ↦ inl (ground arith)
              | inr differs ↦
                  let apart : n ≢ u = ground arith in
                  inr (is_tag_used-mark_other n u m' h le apart ∙ at u)
            ],
          ))
    ]

-- For a manager whose next tag is from 1 to 15, as seen at any tag `u` from 1 to 15: `allocate_tag`
-- answers a tag from 1 to 15 that was not used and marks it used, and no other, or it answers
-- OutOfTags where all tags are used.
pub allocate_tag_lem :
    (u : ℕ) (m : SoftwareTagManager)
    → 0 < u
    → u ≤ 15
    → 0 < m.next_tag
    → m.next_tag ≤ 15
    → let (r, m') = allocate_tag m in
      ((tag : ℕ) × (r ≡ ok tag)
        × (0 < tag)
        × (tag ≤ 15)
        × (is_tag_used tag m ≡ false)
        × (is_tag_used tag m' ≡ true)
        × ((u ≡ tag) ⊎ (is_tag_used u m' ≡ is_tag_used u m)))
      ⊎ ((r ≡ err TagError.out_of_tags) × (is_tag_used u m ≡ true))
unfolding allocate_tag
allocate_tag_lem u m p le q h = elim (search_tag_lem 15 u m p le q h) [
  | inl found ↦ inl found
  | inr (e, inl used) ↦ inr (e, used)
  | inr (e, inr far) ↦ absurd (omega arith)
]
