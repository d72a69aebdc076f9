-- ===== src/Hess/X86/Masks.antt =====
-- What is read back from a tagged pointer, and which processors are taken to have hardware tags.
use native.Mathlib.Nat.{mod-lt, one-le-pow}
use aethalloc.Prelude.{
  ℕ, ◌+◌, ◌*◌, ◌-◌, ◌%◌, ◌^◌, ◌≤◌, ◌<◌, ◌≡◌, refl, ◌∙◌, sym, arith, false, ◌&&◌, leb, ltb, bit_and,
  bit_or, bit_or_high, bit_and_mask, ◌⊎◌, inl, inr, Bool-cases,
}
use aethalloc.Hess.X86.{
  is_vendor, genuine_intel, authentic_amd, bit_set, Registers, X86TagManager, detect,
  has_hardware_tagging, tag_pointer, untag_pointer, get_tag,
}

-- A tag over the low `k` bits of an address.
tagged :
    (k ptr tag : ℕ)
    → tag ≤ 15
    → bit_or (bit_and ptr (2 ^ k - 1)) (tag * 2 ^ k) ≡ tag * 2 ^ k + ptr % 2 ^ k
tagged k ptr tag le =
    rw (bit_and_mask k ptr)
      (bit_or_high k tag (ptr % 2 ^ k) (mod-lt ptr (one-le-pow k 2 (omega arith))))

-- From the pointer that `tag_pointer` gives for a tag up to 15, `get_tag` reads the tag and
-- `untag_pointer` the address that it reads from the pointer without a tag; a greater tag leaves the
-- pointer as it is.
pub untag_pointer-tag_pointer :
    (ptr tag : ℕ) (m : X86TagManager)
    → let p = tag_pointer ptr tag m in
      ((tag ≤ 15) × (get_tag p m ≡ tag) × (untag_pointer p m ≡ untag_pointer ptr m))
      ⊎ ((15 < tag) × (p ≡ ptr))
unfolding tag_pointer get_tag untag_pointer
untag_pointer-tag_pointer ptr tag m = elim (Bool-cases (ltb 15 tag)) [
  | inl big ↦ inr (ground arith, rw big refl)
  | inr fits ↦
      let le : tag ≤ 15 = ground arith in
      elim (Bool-cases (has_hardware_tagging m.features)) [
        | inl hard ↦
            let up : tag * 2 ^ 56 % 2 ^ 64 ≡ tag * 2 ^ 56 = omega arith in
            rw (fits, hard, up, tagged 56 ptr tag le)
              (inl (
                le,
                bit_and_mask 4 _ ∙ omega arith,
                bit_and_mask 56 _ ∙ omega arith ∙ sym (bit_and_mask 56 ptr),
              ))
        | inr soft ↦
            let up : tag * 2 ^ 48 % 2 ^ 64 ≡ tag * 2 ^ 48 = omega arith in
            rw (fits, soft, up, tagged 48 ptr tag le)
              (inl (
                le,
                bit_and_mask 4 _ ∙ omega arith,
                bit_and_mask 48 _ ∙ omega arith ∙ sym (bit_and_mask 48 ptr),
              ))
      ]
]

-- On a processor whose highest basic leaf is below 2^31 `detect` never finds
-- AMD's Upper Address Ignore: it takes pointers to be tagged by hardware only if it finds Intel's LAM.
pub detect-has_amd_uai :
    (cpuid : ℕ → Registers)
    → (cpuid 0).eax < 2 ^ 31
    → ((detect cpuid).has_amd_uai ≡ false)
      × (has_hardware_tagging (detect cpuid) ≡ (detect cpuid).has_intel_lam)
unfolding detect has_hardware_tagging
detect-has_amd_uai cpuid low =
    let v = cpuid 0 in
    let never : leb 0x80000000 v.eax ≡ false = ground arith in
    elim (Bool-cases (is_vendor v genuine_intel && leb 7 v.eax)) [
      | inl intel ↦ elim (Bool-cases (bit_set (cpuid 7).edx 26)) [
        | inl lam ↦ rw (intel, detect, lam) (refl, refl)
        | inr none_found ↦ rw (intel, detect, none_found) (refl, refl)
      ]
      | inr other ↦ elim (Bool-cases (is_vendor v authentic_amd)) [
        | inl amd ↦ rw (other, detect, amd, never) (refl, refl)
        | inr unknown ↦ rw (other, detect, unknown) (refl, refl)
      ]
    ]
