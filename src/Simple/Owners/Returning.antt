-- ===== src/Simple/Owners/Returning.antt =====
-- What the release of a block gives back: to the thread's list, or to the kernel.
use aethalloc.Prelude.{
  ℕ, ◌+◌, ◌-◌, ◌*◌, ◌%◌, ◌^◌, ◌≤◌, ◌<◌, ◌≡◌, refl, ◌∙◌, ap, arith, max, Bool, true, false, some,
  List, ◌∷◌, ltb, ◌==◌, ◌-◌, leb, inl, inr, Bool-cases, pow_mono, pow_split,
}
use aethalloc.SizeClass.{round_up_pow2, size_to_class}
use aethalloc.Pool.Chains.{Ends}
use aethalloc.Page
use aethalloc.Page.{Call, page_size}
use aethalloc.Global.Memory.{load64, max_cache_size}
use aethalloc.Global.Extents.{covers, block_size}
use aethalloc.Global.Alloc.{Layout, large_pages}
use aethalloc.Global.Dealloc
use aethalloc.Global.Large.{IsLarge, large_pages_hold}
use aethalloc.Global.Sizes.{IsSmall}
use aethalloc.Global.Requests.{is_large-small, is_cached-small, is_large-large}
use aethalloc.Global.Owners.{Live, LiveOk, small_block, large_block}
use aethalloc.Simple.{State, maybe_flush, page_dealloc}
use aethalloc.Simple.Chains.{IsBlock}
use aethalloc.Simple.Dealloc.{
  dealloc, dealloc_small, dealloc_large, is_large, is_cached, unmap_page_header, count_free,
}
use aethalloc.Simple.Invariant.{Lists, free_cover, Kept}
use aethalloc.Simple.Moves.{Moved, nothing, stays, counted_after}
use aethalloc.Simple.Pages.{with_os-Kept}
use aethalloc.Simple.Serving.{Short}
use aethalloc.Simple.Releases.{dealloc_small-Returned}
use aethalloc.Simple.Owners.{seen}

-- A small block, which is no whole pages, goes to the lists; the pages of a large one are unmapped, and
-- nothing else changes.
pub data Given (b : Live) (st : State) (ls gs : Lists) (st' : State) : Type 0 where
  to_lists :
      {ls' gs' : Lists}
      → Moved (λ a. covers a b.base b.len) nothing st ls gs st' ls' gs'
      → Short ls'
      → st'.os ≡ st.os
      → 0 < b.len % page_size
      → Given b st ls gs st'
  to_kernel :
      Kept st' ls gs
      → b.len % page_size ≡ 0
      → st'.memory ≡ st.memory
      → st'.os.calls ≡ Call.munmap b.base b.len ∷ st.os.calls
      → Given b st ls gs st'

-- The blocks of a class are no whole pages.
block_size-mod : (class : ℕ) → 0 < block_size class % page_size
block_size-mod class = elim (Bool-cases (leb class 7)) [
  | inl low ↦ omega (arith, pow_mono (class + 4) 11 (ground arith))
  | inr high ↦
      let split : 2 ^ (class - 8 + 12) ≡ 2 ^ (class - 8) * 4096 = pow_split 12 (class - 8) in
      let back : class - 8 + 12 ≡ class + 4 = ground arith in omega (arith, rw back at split)
]

pub dealloc-small :
    (rounds : List Bool) (class : ℕ) {ptr size : ℕ} (st : State) (s : IsSmall ptr size (seen st))
    → 0 < size
    → size ≤ max_cache_size
    → size_to_class (max (round_up_pow2 size) 16) ≡ some class
    → dealloc rounds ptr st ≡ dealloc_small rounds class s.block st
unfolding dealloc is_large is_cached Dealloc.is_large Dealloc.is_cached
dealloc-small rounds class {ptr} {size} st s p h q =
    let not_null : (ptr == 0) ≡ false = ground (arith, s.behind) in
    let back : ptr - 16 ≡ s.block = omega (arith, s.behind) in
    let header : load64 st.memory (ptr - 16) ≡ size = rw back s.header in
    rw (not_null, dealloc, is_large-small s h, is_cached-small s p h, header, q)
      (ap (λ (x : ℕ). dealloc_small rounds class x st) back)

dealloc-large :
    (rounds : List Bool) {l : Layout} {base ptr : ℕ} (st : State)
    → IsLarge base l ptr (seen st)
    → large_pages l < 2 ^ 32
    → dealloc rounds ptr st ≡ some (count_free (page_dealloc base (large_pages l) st))
unfolding dealloc dealloc_large is_large unmap_page_header Dealloc.is_large
dealloc-large rounds {l} {base} {ptr} st s few =
    let not_null : (ptr == 0) ≡ false = ground (arith, s.above) in
    let whole : large_pages l % 2 ^ 32 ≡ large_pages l = omega arith in
    let some_pages : ltb 0 (large_pages l) ≡ true = ground (arith, large_pages_hold l) in
    rw (not_null, is_large-large s, s.large_header, s.page_header, whole, some_pages) refl

-- The release of a block that a client holds ends, if not all swaps fail for no reason.
pub dealloc-Given :
    (rounds : List Bool) {st : State} {b : Live} {ls gs : Lists}
    → Ends rounds
    → LiveOk (seen st) b
    → 0 < b.base
    → b.base < 2 ^ 64
    → Short ls
    → ((a : ℕ) → free_cover a ls gs + covers a b.base b.len ≤ 1)
    → Kept st ls gs
    → (st' : State) × (dealloc rounds b.ptr st ≡ some st') × Given b st ls gs st'
unfolding count_free maybe_flush page_dealloc Page.dealloc
dealloc-Given rounds {st} {b} {ls} {gs} ends (small_block class s p h q lt holds at len) pos fits
      short apart kept =
    let is_block : IsBlock s.block = (omega (arith, at), s.aligned, omega (arith, at)) in
    let (st', got, f) =
      dealloc_small-Returned rounds class s.block {st = st} {ls = ls} {gs = gs} (omega arith) ends
        is_block short (rw (at, len) at apart) kept in
    (
      st',
      dealloc-small rounds class st s p h q ∙ got,
      to_lists {ls' = f.locals} {gs' = f.globals} (rw (at, len) f.moves) f.short f.same_os
          (rw len (block_size-mod class)),
    )
dealloc-Given rounds {st} {b} {ls} {gs} ends (large_block l s e few len) pos fits short apart kept =
    let whole : large_pages l * page_size % 2 ^ 64 ≡ b.len = omega arith in
    let some_pages : (large_pages l == 0) ≡ false = ground (arith, large_pages_hold l) in
    let st1 = page_dealloc b.base (large_pages l) st in
    let calls : st1.os.calls ≡ Call.munmap b.base b.len ∷ st.os.calls =
      rw (some_pages, whole) refl in
    let answers : st1.os.answers ≡ st.os.answers = rw some_pages refl in
    let kept1 = with_os-Kept st1.os (rw answers kept.answers_ok) kept in
    (
      count_free st1,
      dealloc-large rounds st s few,
      to_kernel ((counted_after _ _ (stays kept1)).kept) (omega arith) refl calls,
    )
