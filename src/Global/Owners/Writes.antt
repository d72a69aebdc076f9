-- ===== src/Global/Owners/Writes.antt =====
-- Where the headers of a large allocation are written.
use aethalloc.Prelude.{ℕ, ◌+◌, ◌*◌, ◌≤◌, ◌<◌, ◌≡◌, ◌∙◌, arith, ◌⊎◌, inl, inr}
use aethalloc.Page.{page_size}
use aethalloc.Global.Memory.{
  PageHeader, LargeAllocHeader, Memory, store64, store32, write_page_header, write_large_header,
}
use aethalloc.Global.State.{State}
use aethalloc.Global.Extents.{covers}
use aethalloc.Global.Alloc.{Layout, place_large, large_pages}

covers_out : (a base len : ℕ) → covers a base len ≡ 0 → (a < base) ⊎ (base + len ≤ a)
unfolding covers
covers_out a base len h = ground arith

write_page_header-outside :
    (m : Memory) (base : ℕ) (h : PageHeader) (a : ℕ)
    → (a < base) ⊎ (base + 16 ≤ a)
    → write_page_header m base h a ≡ m a
unfolding write_page_header store64 store32
write_page_header-outside m base h a out = ground arith

write_large_header-outside :
    (m : Memory) (base : ℕ) (h : LargeAllocHeader) (a : ℕ)
    → (a < base) ⊎ (base + 16 ≤ a)
    → write_large_header m base h a ≡ m a
unfolding write_large_header store64 store32
write_large_header-outside m base h a out = ground arith

-- Nothing below the base of a large block, or past it, is written.
pub place_large-outside :
    (l : Layout) (base : ℕ) (st : State)
    → base + 32 ≤ (place_large l base st).0
    → (place_large l base st).0 ≤ base + large_pages l * page_size
    → (a : ℕ) → covers a base (large_pages l * page_size) ≡ 0
    → (place_large l base st).1.memory a ≡ st.memory a
unfolding place_large
place_large-outside l base st above within a out =
    let far = covers_out a base (large_pages l * page_size) out in
    write_large_header-outside _ _ _ a
      (elim far [ inl lo ↦ inl (omega arith) | inr hi ↦ inr (omega arith) ])
    ∙ write_page_header-outside _ _ _ a (elim far [ inl lo ↦ inl lo | inr hi ↦ inr (omega arith) ])
