-- ===== src/Hess/Mte/Laws.antt =====
-- The tags of the manager, and what its pointer operations give on the documented instructions.
use aethalloc.Prelude.{
  ℕ, zero, suc, ◌+◌, ◌-◌, ◌*◌, ◌/◌, ◌%◌, ◌^◌, ◌<◌, ◌≡◌, refl, ◌∙◌, arith, inl, inr, Bool-cases,
  if◌then◌else◌, ◌==◌, leb, ltb, ◌&&◌, ◌||◌, true, false, bit_and,
}
use aethalloc.Hess
use aethalloc.Hess.{SoftwareTagManager, Outcome, TagError, ok, err}
use aethalloc.Hess.Mte.{
  Instructions, MteTagManager, search_tag, allocate_tag, free_tag, is_tag_used, mark_tag_used,
  mark_tag_free, untag_pointer, get_tag,
}

abbrev pub software : MteTagManager → SoftwareTagManager
software m = record { next_tag = m.next_tag; used_tags = m.used_tags }

search_tag-software :
    (rounds : ℕ) (m : MteTagManager)
    → let (r, m') = search_tag rounds m in
      let (s, n) = Hess.search_tag rounds (software m) in (r ≡ s) × (software m' ≡ n)
unfolding search_tag is_tag_used mark_tag_used Hess.search_tag Hess.is_tag_used Hess.mark_tag_used
    Hess.next_tag_after
search_tag-software zero m = (refl, refl)
search_tag-software (suc rounds) m =
    let m' : MteTagManager = record m {
      next_tag = if leb 15 m.next_tag then 1 else m.next_tag + 1;
    } in
    elim (Bool-cases (bit_and m.used_tags (2 ^ m.next_tag % 2 ^ 16) == 0)) [
      | inl free ↦ rw free (refl, refl)
      | inr used ↦ rw used (search_tag-software rounds m')
    ]

-- `allocate_tag` and `free_tag` of the MTE manager answer what those of the software manager answer for
-- the same next tag and used tags, and leave the same next tag and used tags.
pub tags-software_mte :
    (tag : ℕ) (m : MteTagManager)
    → let (r, m') = allocate_tag m in
      let (s, n) = Hess.allocate_tag (software m) in
      let (u, m'') = free_tag tag m in
      let (v, n') = Hess.free_tag tag (software m) in
      ((r ≡ s) × (software m' ≡ n)) × ((u ≡ v) × (software m'' ≡ n'))
unfolding allocate_tag Hess.allocate_tag free_tag mark_tag_free Hess.free_tag Hess.mark_tag_free
tags-software_mte tag m = (
  search_tag-software 15 m,
  elim (Bool-cases (ltb tag 1 || ltb 15 tag)) [
    | inl bad ↦
        let bad' : (leb 1 tag && leb tag 15) ≡ false = ground arith in rw (bad, bad') (refl, refl)
    | inr good ↦
        let good' : (leb 1 tag && leb tag 15) ≡ true = ground arith in rw (good, good') (refl, refl)
  ],
)

-- The documented SUBP gives the difference of the two addresses: then `untag_pointer` answers the null
-- pointer, whatever the pointer is.
pub untag_pointer-null :
    {T : Type 0} (i : Instructions T) (address : ℕ → ℕ)
    → ((p q : ℕ) → i.subp p q ≡ (address p + 2 ^ 64 - address q) % 2 ^ 64)
    → (ptr : ℕ) → address ptr < 2 ^ 64
    → untag_pointer i ptr ≡ 0
unfolding untag_pointer
untag_pointer-null i address documented ptr fits = documented ptr ptr ∙ omega arith

-- The documented LDG puts the allocation tag in the bits 56 to 59 of its register and keeps the others:
-- then what `get_tag` answers does not depend on the tags in memory.
pub get_tag_blind :
    {T : Type 0} (i : Instructions T) (register : ℕ) (tag_at : ℕ → T → ℕ)
    → ((p : ℕ) (t : T)
        → i.ldg p t ≡ register / 2 ^ 60 * 2 ^ 60 + tag_at p t * 2 ^ 56 + register % 2 ^ 56)
    → (ptr : ℕ) (t t' : T) → get_tag i ptr t ≡ get_tag i ptr t'
unfolding get_tag
get_tag_blind i register tag_at documented ptr t t' =
    omega (arith, documented ptr t, documented ptr t')
