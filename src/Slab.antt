-- ===== src/Slab.antt =====
-- aethalloc-core/src/slab.rs: the slots of one size in at most four pages.
pub mod Accounts
use aethalloc.Prelude.{
  ℕ, zero, suc, ◌+◌, ◌-◌, ◌*◌, ◌/◌, ◌%◌, ◌^◌, Bool, true, false, Option, none, some, List, [], ◌∷◌,
  ◌&&◌, ◌||◌, leb, ltb, ◌==◌, if◌then◌else◌, get_or, set, replicate,
}
use aethalloc.Page
use aethalloc.Page.{Os, page_size}

abbrev pub max_slab_pages : ℕ
max_slab_pages = 4

-- The free slots are a list, the head first: a slot in it holds what comes next.
pub record Slab : Type 0 where
  pub slot_size : ℕ
  pub slots_per_page : ℕ
  pub free_slots : List ℕ
  pub allocated : ℕ
  pub pages : List (Option ℕ)
  pub num_pages : ℕ
  pub next_slot : ℕ
  pub os : Os

unfoldable pub new : ℕ → Os → Slab
new slot_size os = record {
  slot_size = slot_size;
  slots_per_page = page_size / slot_size;
  free_slots = [];
  allocated = 0;
  pages = replicate max_slab_pages none;
  num_pages = 0;
  next_slot = 0;
  os = os;
}

unfoldable pub alloc_new_page : Slab → Option (Unit {0}) × Slab
alloc_new_page s =
    let (page, os) = Page.alloc 1 s.os in
    elim page [
      | none ↦ (none, record s { os = os })
      | some addr ↦ (
        some tt,
        record s {
          pages = set s.pages s.num_pages (some addr);
          num_pages = s.num_pages + 1;
          next_slot = 0;
          os = os;
        },
      )
    ]

-- The next slot of the last page; `none` stands for an index that no page has.
unfoldable pub bump : Slab → Option ℕ × Slab
bump s = elim (get_or s.pages (s.num_pages - 1) none) [
  | none ↦ (none, s)
  | some page ↦ (
    some (page + s.next_slot * s.slot_size),
    record s { next_slot = s.next_slot + 1; allocated = s.allocated + 1 },
  )
]

-- From the test for a full page on.
unfoldable pub alloc_fresh : Slab → Option ℕ × Slab
unfolding alloc_new_page bump
alloc_fresh s =
    if leb s.slots_per_page s.next_slot
    then if leb max_slab_pages s.num_pages
      then (none, s)
      else (let (done, s') = alloc_new_page s in elim done [ none ↦ (none, s') | some _ ↦ bump s' ])
    else bump s

unfoldable pub alloc : Slab → Option ℕ × Slab
unfolding alloc_fresh
alloc s = elim (s.free_slots) [
  | free_ptr ∷ rest ↦ (some free_ptr, record s { free_slots = rest; allocated = s.allocated + 1 })
  | [] ↦
      if s.num_pages == 0
      then (let (done, s') = alloc_new_page s in
          elim done [ none ↦ (none, s') | some _ ↦ alloc_fresh s' ])
      else alloc_fresh s
]

-- Whether a pointer is in one of the first `n` pages of a list.
unfoldable pub in_pages : ℕ → ℕ → List (Option ℕ) → Bool
in_pages ptr zero pages = false
in_pages ptr (suc n) [] = false
in_pages ptr (suc n) (none ∷ rest) = in_pages ptr n rest
in_pages ptr (suc n) (some page ∷ rest) =
    (leb page ptr && ltb ptr (page + page_size)) || in_pages ptr n rest

unfoldable pub dealloc : ℕ → Slab → Slab
unfolding in_pages
dealloc ptr s =
    if in_pages ptr s.num_pages s.pages
    then record s {
      free_slots = ptr ∷ s.free_slots;
      allocated = (2 ^ 64 + s.allocated - 1) % 2 ^ 64;
    }
    else s

-- The pages that a dropped slab gives back.
unfoldable pub drop_pages : ℕ → List (Option ℕ) → Os → Os
drop_pages zero pages os = os
drop_pages (suc n) [] os = os
drop_pages (suc n) (none ∷ rest) os = drop_pages n rest os
drop_pages (suc n) (some page ∷ rest) os = drop_pages n rest (Page.dealloc page 1 os)
