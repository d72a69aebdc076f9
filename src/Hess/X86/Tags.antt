-- ===== src/Hess/X86/Tags.antt =====
-- The tags of the two managers.
use aethalloc.Prelude.{
  ℕ, zero, suc, ◌+◌, ◌%◌, ◌^◌, ◌≡◌, refl, inl, inr, Bool-cases, if◌then◌else◌, ◌==◌, leb, bit_and,
}
use aethalloc.Hess
use aethalloc.Hess.{SoftwareTagManager, Outcome}
use aethalloc.Hess.X86.{X86TagManager, search_tag, allocate_tag}

abbrev pub software : X86TagManager → SoftwareTagManager
software m = record { next_tag = m.next_tag; used_tags = m.used_tags }

abbrev Agrees : X86TagManager → Outcome ℕ × X86TagManager → Outcome ℕ × SoftwareTagManager → Type 0
Agrees m (r, m') (s, n) = (r ≡ s) × (software m' ≡ n) × (m'.features ≡ m.features)

search_tag-software :
    (rounds : ℕ) (m : X86TagManager)
    → Agrees m (search_tag rounds m) (Hess.search_tag rounds (software m))
unfolding search_tag Hess.search_tag Hess.is_tag_used Hess.mark_tag_used Hess.next_tag_after
search_tag-software zero m = (refl, refl, refl)
search_tag-software (suc rounds) m =
    let m' : X86TagManager = record m {
      next_tag = if leb 15 m.next_tag then 1 else m.next_tag + 1;
    } in
    elim (Bool-cases (bit_and m.used_tags (2 ^ m.next_tag % 2 ^ 16) == 0)) [
      | inl free ↦ rw free (refl, refl, refl)
      | inr used ↦ rw used (search_tag-software rounds m')
    ]

-- `allocate_tag` of the x86 manager answers what `allocate_tag` of the software manager answers for
-- the same next tag and used tags, leaves the same next tag and used tags, and keeps the features.
pub allocate_tag-software :
    (m : X86TagManager)
    → let (r, m') = allocate_tag m in
      let (s, n) = Hess.allocate_tag (software m) in
      (r ≡ s) × (software m' ≡ n) × (m'.features ≡ m.features)
unfolding allocate_tag Hess.allocate_tag
allocate_tag-software m = search_tag-software 15 m
