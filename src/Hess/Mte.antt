-- ===== src/Hess/Mte.antt =====
-- aethalloc-hess/src/mte.rs: the tag manager over the instructions of the Memory Tagging Extension,
-- which are parameters, with the allocation tags of memory as a state that they work on.
pub mod Laws
use aethalloc.Prelude.{
  ℕ, zero, suc, ◌+◌, ◌-◌, ◌/◌, ◌%◌, ◌^◌, Bool, true, false, Option, none, some, ◌||◌, not, leb, ltb,
  ◌==◌, if◌then◌else◌, bit_and, bit_or,
}
use aethalloc.Hess.{TagError, Outcome, ok, err, min_tag, max_tag}

-- The instructions that the manager runs: ADDG, SUBP and LDG give the contents of a register, and STG
-- changes the allocation tags.
pub record Instructions (T : Type 0) : Type 0 where
  pub addg : (ptr tag_offset : ℕ) → ℕ
  pub subp : (ptr1 ptr2 : ℕ) → ℕ
  pub ldg : (ptr : ℕ) → T → ℕ
  pub stg : (ptr : ℕ) → T → T

pub record MteTagManager : Type 0 where
  pub used_tags : ℕ
  pub next_tag : ℕ

unfoldable pub new : MteTagManager
new = record { used_tags = 0; next_tag = min_tag }

unfoldable pub is_tag_used : ℕ → MteTagManager → Bool
is_tag_used tag m = not (bit_and m.used_tags (2 ^ tag % 2 ^ 16) == 0)

unfoldable pub mark_tag_used : ℕ → MteTagManager → MteTagManager
mark_tag_used tag m = record m { used_tags = bit_or m.used_tags (2 ^ tag % 2 ^ 16) }

unfoldable pub mark_tag_free : ℕ → MteTagManager → MteTagManager
mark_tag_free tag m = record m { used_tags = bit_and m.used_tags (2 ^ 16 - 1 - 2 ^ tag % 2 ^ 16) }

-- The loop of `allocate_tag`, with `rounds` rounds left.
unfoldable pub search_tag : ℕ → MteTagManager → Outcome ℕ × MteTagManager
unfolding is_tag_used mark_tag_used
search_tag zero m = (err TagError.out_of_tags, m)
search_tag (suc rounds) m =
    let tag = m.next_tag in
    let m' = record m { next_tag = if leb max_tag tag then min_tag else tag + 1 } in
    let rest = search_tag rounds m' in
    if not (is_tag_used tag m') then (ok tag, mark_tag_used tag m') else rest

unfoldable pub allocate_tag : MteTagManager → Outcome ℕ × MteTagManager
unfolding search_tag
allocate_tag m = search_tag 15 m

unfoldable pub free_tag : ℕ → MteTagManager → Outcome (Unit {0}) × MteTagManager
unfolding mark_tag_free
free_tag tag m =
    if ltb tag min_tag || ltb max_tag tag
    then (err TagError.invalid_tag, m)
    else (ok tt, mark_tag_free tag m)

module _ {T : Type 0} (i : Instructions T) where
  unfoldable pub tag_pointer : (ptr tag : ℕ) → Outcome ℕ
  tag_pointer ptr tag = if ltb max_tag tag then err TagError.invalid_tag else ok (i.addg ptr tag)

  unfoldable pub untag_pointer : ℕ → ℕ
  untag_pointer ptr = i.subp ptr ptr

  -- The cast to `Tag` keeps the low 16 bits.
  unfoldable pub get_tag : ℕ → T → ℕ
  get_tag ptr tags = i.ldg ptr tags % 2 ^ 16

  unfoldable pub store_tag : (ptr tag : ℕ) → T → Outcome (Unit {0}) × T
  store_tag ptr tag tags =
      if ltb max_tag tag
      then (err TagError.invalid_tag, tags)
      else (ok tt, i.stg (i.addg ptr tag) tags)

  unfoldable pub load_tag : ℕ → T → ℕ
  load_tag ptr tags = i.ldg ptr tags % 2 ^ 16

-- On aarch64 the register ID_AA64PFR1_EL1 is read; `none` is another processor.
unfoldable pub is_mte_supported : Option ℕ → Bool
is_mte_supported none = false
is_mte_supported (some id_aa64pfr1) = leb 1 (bit_and (id_aa64pfr1 / 2 ^ 8) 0xF)
