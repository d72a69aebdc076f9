-- ===== src/Hess.antt =====
-- aethalloc-hess/src/tag_manager.rs: `SoftwareTagManager`, whose tags are 4 bits of a pointer.
pub mod Pointers
pub mod Tags
pub mod X86
pub mod Mte
pub mod Cheri
use aethalloc.Prelude.{
  ℕ, zero, suc, ◌+◌, ◌-◌, ◌*◌, ◌/◌, ◌%◌, ◌^◌, Bool, true, false, Option, none, some, ◌&&◌, ◌||◌,
  not, leb, ltb, ◌==◌, if◌then◌else◌, bit_and, bit_or,
}

abbrev pub min_tag : ℕ
min_tag = 1

abbrev pub max_tag : ℕ
max_tag = 15

pub data TagError : Type 0 where
  out_of_tags invalid_tag hardware_not_supported alignment_error : TagError

pub data Outcome {ℓ} (A : Type ℓ) : Type ℓ where
  ok : A → Outcome A
  err : TagError → Outcome A

pub record SoftwareTagManager : Type 0 where
  pub next_tag : ℕ
  pub used_tags : ℕ

unfoldable pub new : SoftwareTagManager
new = record { next_tag = min_tag; used_tags = 0 }

unfoldable pub is_tag_used : ℕ → SoftwareTagManager → Bool
is_tag_used tag m = not (bit_and m.used_tags (2 ^ tag % 2 ^ 16) == 0)

unfoldable pub mark_tag_used : ℕ → SoftwareTagManager → SoftwareTagManager
mark_tag_used tag m = record m { used_tags = bit_or m.used_tags (2 ^ tag % 2 ^ 16) }

unfoldable pub mark_tag_free : ℕ → SoftwareTagManager → SoftwareTagManager
mark_tag_free tag m = record m { used_tags = bit_and m.used_tags (2 ^ 16 - 1 - 2 ^ tag % 2 ^ 16) }

-- The tag after a tag.
unfoldable pub next_tag_after : ℕ → ℕ
next_tag_after tag = if leb max_tag tag then min_tag else tag + 1

-- The loop of `allocate_tag`, with `rounds` rounds left.
unfoldable pub search_tag : ℕ → SoftwareTagManager → Outcome ℕ × SoftwareTagManager
unfolding is_tag_used mark_tag_used next_tag_after
search_tag zero m = (err TagError.out_of_tags, m)
search_tag (suc rounds) m =
    let m' = record m { next_tag = next_tag_after m.next_tag } in
    let rest = search_tag rounds m' in
    if is_tag_used m.next_tag m' then rest else (ok m.next_tag, mark_tag_used m.next_tag m')

unfoldable pub allocate_tag : SoftwareTagManager → Outcome ℕ × SoftwareTagManager
unfolding search_tag
allocate_tag m = search_tag 15 m

unfoldable pub free_tag : ℕ → SoftwareTagManager → Outcome (Unit {0}) × SoftwareTagManager
unfolding mark_tag_free
free_tag tag m =
    if leb min_tag tag && leb tag max_tag
    then (ok tt, mark_tag_free tag m)
    else (err TagError.invalid_tag, m)

-- The bits of an address that are no tag.
abbrev pub address_mask : ℕ
address_mask = 2 ^ 64 - 1 - 0x0F00000000000000

unfoldable pub tag_pointer : (ptr tag : ℕ) → Outcome ℕ
tag_pointer ptr tag =
    if ltb max_tag tag
    then err TagError.invalid_tag
    else ok (bit_or (bit_and ptr address_mask) (tag * 2 ^ 56 % 2 ^ 64))

unfoldable pub untag_pointer : ℕ → ℕ
untag_pointer ptr = bit_and ptr address_mask

unfoldable pub get_tag : ℕ → ℕ
get_tag ptr = bit_and (ptr / 2 ^ 56) 15
