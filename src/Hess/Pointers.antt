-- ===== src/Hess/Pointers.antt =====
-- The tag of a pointer, bit by bit.
use native.Mathlib.Nat.{pow-suc, div-div-eq-div-mul}
use aethalloc.Prelude.{
  ℕ, zero, suc, ◌+◌, ◌*◌, ◌/◌, ◌%◌, ◌^◌, ◌≤◌, ◌<◌, ◌≡◌, refl, ◌∙◌, sym, ap, arith, bit_and, bit_or,
  bit_or_step, bit_and_step, bit_and_high, bit_or_low, bit_and_mask, ◌⊎◌, inl, inr, ltb, Bool-cases,
  Bool-cases,
}
use aethalloc.Hess.{TagError, ok, err, tag_pointer, get_tag, max_tag, address_mask}

halve : (k x : ℕ) → x / 2 ^ suc k ≡ x / 2 / 2 ^ k
halve k x =
    let twice : 2 * 2 ^ k ≡ 2 ^ suc k = omega (arith, pow-suc 2 k) in
    sym (div-div-eq-div-mul x 2 (2 ^ k) ∙ ap (λ (d : ℕ). x / d) twice)

over_one : (x : ℕ) → x / 2 ^ 0 ≡ x
over_one x = omega arith

shift_or : (k x y : ℕ) → bit_or x y / 2 ^ k ≡ bit_or (x / 2 ^ k) (y / 2 ^ k)
shift_or zero x y = rw (over_one (bit_or x y), over_one x, over_one y) refl
shift_or (suc k) x y =
    let half : bit_or x y / 2 ≡ bit_or (x / 2) (y / 2) = omega (arith, bit_or_step x y) in
    rw (halve k (bit_or x y), half, halve k x, halve k y) (shift_or k (x / 2) (y / 2))

shift_and : (k x y : ℕ) → bit_and x y / 2 ^ k ≡ bit_and (x / 2 ^ k) (y / 2 ^ k)
shift_and zero x y = rw (over_one (bit_and x y), over_one x, over_one y) refl
shift_and (suc k) x y =
    let half : bit_and x y / 2 ≡ bit_and (x / 2) (y / 2) = omega (arith, bit_and_step x y) in
    rw (halve k (bit_and x y), half, halve k x, halve k y) (shift_and k (x / 2) (y / 2))

tag_bits : (q tag : ℕ) → q < 256 → tag ≤ 15 → bit_and (bit_or (bit_and q 240) tag) 15 ≡ tag
tag_bits q tag h le =
    let cut : q ≡ q / 16 * 2 ^ 4 + q % 16 = omega arith in
    let high : bit_and (q / 16 * 2 ^ 4 + q % 16) 240 ≡ q / 16 * 2 ^ 4 =
      bit_and_high 4 4 (q / 16) (q % 16) (omega arith) (omega arith) in
    let cleared : bit_and q 240 ≡ q / 16 * 2 ^ 4 = ap (λ (x : ℕ). bit_and x 240) cut ∙ high in
    rw (cleared, bit_or_low 4 (q / 16) tag (omega arith)) (bit_and_mask 4 _ ∙ omega arith)

-- A tag up to 15 is read back by `get_tag` from the 64-bit pointer that `tag_pointer` gives, and a
-- greater one is refused.
pub get_tag-tag_pointer :
    (ptr tag : ℕ)
    → ptr < 2 ^ 64
    → ((tagged : ℕ) × (tag_pointer ptr tag ≡ ok tagged) × (tag ≤ max_tag) × (get_tag tagged ≡ tag))
      ⊎ ((tag_pointer ptr tag ≡ err TagError.invalid_tag) × (max_tag < tag))
unfolding tag_pointer get_tag
get_tag-tag_pointer ptr tag h = elim (Bool-cases (ltb max_tag tag)) [
  | inl big ↦ inr (rw big refl, ground arith)
  | inr fits ↦
      let le : tag ≤ 15 = ground arith in
      let up : tag * 2 ^ 56 % 2 ^ 64 / 2 ^ 56 ≡ tag = omega arith in
      let cleared : bit_and ptr address_mask / 2 ^ 56 ≡ bit_and (ptr / 2 ^ 56) 240 =
        shift_and 56 ptr address_mask in
      let tagged = bit_or (bit_and ptr address_mask) (tag * 2 ^ 56 % 2 ^ 64) in
      let top = shift_or 56 (bit_and ptr address_mask) (tag * 2 ^ 56 % 2 ^ 64) in
      inl (
        tagged,
        rw fits refl,
        le,
        rw (top, cleared, up) (tag_bits (ptr / 2 ^ 56) tag (omega arith) le),
      )
]
