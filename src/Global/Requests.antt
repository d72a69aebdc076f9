-- ===== src/Global/Requests.antt =====
-- What is read back from a pointer that `alloc` has answered, and what its release does.
use aethalloc.Prelude.{
  ℕ, zero, suc, ◌+◌, ◌-◌, ◌*◌, ◌%◌, ◌^◌, ◌≤◌, ◌<◌, ◌≡◌, refl, arith, true, false, ◌∷◌, ◌⊎◌, inl,
  inr, ◌&&◌, leb, ◌==◌, Bool-cases, pow_mono,
}
use aethalloc.Magazine.{null}
use aethalloc.Page
use aethalloc.Page.{page_size, Call}
use aethalloc.Global.Memory.{read_page_header, read_large_header, max_cache_size}
use aethalloc.Global.State.{State, maybe_flush, page_alloc, page_dealloc}
use aethalloc.Global.Invariant.{StateOk, maybe_flush-Ok, with_metrics-Ok}
use aethalloc.Global.Mapping.{Refused, page_alloc-Ok, page_alloc-calls}
use aethalloc.Global.Alloc.{Layout, IsLayout, alloc, alloc_large, large_pages, place_large}
use aethalloc.Global.Dealloc.{
  is_large, is_cached, header_size, get_alloc_size, dealloc, dealloc_large, unmap_page_header,
  count_free,
}
use aethalloc.Global.Sizes.{IsSmall}
use aethalloc.Global.Large.{IsLarge, place_large-IsLarge, large_pages_hold}
use aethalloc.Global.Served.{alloc-Answer}

-- The words below a small block are no large header.
pub is_large-small :
    {ptr size : ℕ} {st : State}
    → IsSmall ptr size st
    → size ≤ max_cache_size
    → is_large ptr st ≡ false
unfolding is_large read_large_header
is_large-small {ptr} {size} {st} s h =
    let e : ptr - 16 ≡ s.block = omega (arith, s.behind) in rw (e, is_large, s.low) (ground arith)

pub is_cached-small :
    {ptr size : ℕ} {st : State}
    → IsSmall ptr size st
    → 0 < size
    → size ≤ max_cache_size
    → is_cached ptr st ≡ true
unfolding is_cached read_page_header
is_cached-small {ptr} {size} {st} s p h =
    let e : ptr - 16 ≡ s.block = omega (arith, s.behind) in
    rw (e, is_cached, s.header, s.low) (ground arith)

pub is_large-large :
    {l : Layout} {base ptr : ℕ} {st : State} → IsLarge base l ptr st → is_large ptr st ≡ true
unfolding is_large
is_large-large s = rw s.large_header refl

pub get_alloc_size-small :
    {ptr size : ℕ} {st : State}
    → IsSmall ptr size st
    → 0 < size
    → size ≤ max_cache_size
    → get_alloc_size ptr st ≡ size
unfolding get_alloc_size
get_alloc_size-small {ptr} {size} {st} s p h =
    let e : (ptr == 0) ≡ false = ground (arith, s.behind) in
    let back : ptr - 16 ≡ s.block = omega (arith, s.behind) in
    rw (e, get_alloc_size, is_large-small s h, is_cached-small s p h, back) s.header

pub get_alloc_size-large :
    {l : Layout} {base ptr : ℕ} {st : State}
    → IsLarge base l ptr st
    → get_alloc_size ptr st ≡ l.size
unfolding get_alloc_size header_size
get_alloc_size-large {ptr = ptr} s =
    let e : (ptr == 0) ≡ false = ground (arith, s.above) in
    rw (e, get_alloc_size, is_large-large s, s.large_header, s.page_header) refl

-- For a request of at least one byte, `alloc` answers null, and then `mmap` refuses the next page
-- request, or a pointer from which `get_alloc_size` reads the size of the request back.
pub get_alloc_size-alloc :
    {l : Layout} {st : State}
    → IsLayout l
    → StateOk st
    → 0 < l.size
    → let (ptr, st') = alloc l st in
      ((ptr ≡ null) × Refused st.os.answers) ⊎ (get_alloc_size ptr st' ≡ l.size)
get_alloc_size-alloc {l} {st} lay ok p = elim ((alloc-Answer lay ok p).1) [
  | inl refused ↦ inl refused
  | inr (inl (fits, s)) ↦ inr (get_alloc_size-small s p fits.0)
  | inr (inr m) ↦ inr (get_alloc_size-large m.large)
]

small_power : (j d a : ℕ) → d ≡ 2 ^ j → d ≤ 8 → a % 16 ≡ 0 → a % d ≡ 0
small_power zero d a e h p = omega arith
small_power (suc zero) d a e h p = ground arith
small_power (suc (suc zero)) d a e h p = ground arith
small_power (suc (suc (suc zero))) d a e h p = ground arith
small_power (suc (suc (suc (suc j)))) d a e h p =
    absurd (omega (arith, pow_mono 4 (suc (suc (suc (suc j)))) (omega arith)))

pub alloc_aligned :
    {l : Layout} {st : State}
    → IsLayout l
    → StateOk st
    → 0 < l.size
    → let (ptr, st') = alloc l st in
      ((ptr ≡ null) × Refused st.os.answers) ⊎ ((ptr % 16 ≡ 0) × (ptr % l.align ≡ 0))
alloc_aligned {l} {st} lay ok p = elim ((alloc-Answer lay ok p).1) [
  | inl refused ↦ inl refused
  | inr (inl (fits, s)) ↦
      let at : (alloc l st).0 % 16 ≡ 0 = omega (arith, s.behind, s.aligned) in
      inr (at, small_power lay.log_align l.align _ lay.power fits.1 at)
  | inr (inr m) ↦ inr (m.large.aligned_16, m.large.aligned)
]

alloc_large-calls :
    {l : Layout} {st : State}
    → IsLayout l
    → StateOk st
    → let (ptr, st') = alloc_large l st in
      (ptr ≡ null)
      ⊎ ((base : ℕ) × IsLarge base l ptr st'
          × (st'.os.calls ≡ Call.mmap base (large_pages l * page_size % 2 ^ 64) ∷ st.os.calls))
unfolding alloc_large maybe_flush place_large
alloc_large-calls {l} {st} lay ok =
    let counted : State = maybe_flush (record st {
      metrics = record (st.metrics) {
        direct_allocs = st.metrics.direct_allocs + 1;
        allocs = st.metrics.allocs + 1;
      };
    }) in
    let some_pages : 0 < large_pages l = omega (arith, large_pages_hold l) in
    let (ok', got) =
      page_alloc-Ok (large_pages l) {st = counted} some_pages
        (maybe_flush-Ok (with_metrics-Ok _ ok)) in
    elim got [
      | inl (addr, e, aligned, pos, low) ↦
          let large =
            place_large-IsLarge addr (page_alloc (large_pages l) counted).1 lay aligned low in
          rw (e, alloc_large)
            (inr (addr, large, page_alloc-calls (large_pages l) counted addr some_pages e))
      | inr (e, refused) ↦ rw (e, alloc_large) (inl refl)
    ]

-- The release of a large allocation of less than 2^32 pages unmaps the pages at its base.
pub dealloc-large :
    {l : Layout} {base ptr : ℕ} {st : State}
    → IsLarge base l ptr st
    → large_pages l < 2 ^ 32
    → (dealloc ptr st).os.calls
      ≡ Call.munmap base (large_pages l * page_size % 2 ^ 64) ∷ st.os.calls
unfolding dealloc dealloc_large unmap_page_header count_free maybe_flush page_dealloc Page.dealloc
dealloc-large {l} {base} {ptr} {st} s h =
    let not_null : (ptr == 0) ≡ false = ground (arith, s.above) in
    let count : large_pages l % 2 ^ 32 ≡ large_pages l = omega arith in
    rw (not_null, dealloc, is_large-large s, s.large_header, s.page_header, count) (ground arith)

-- A request that the magazines do not serve, by its size or its alignment, for less than 2^32
-- pages: `alloc` answers null, or maps its pages and nothing else, and `dealloc` of the pointer
-- unmaps the same range and nothing else.
pub dealloc-alloc_large :
    {l : Layout} {st : State}
    → IsLayout l
    → StateOk st
    → (max_cache_size < l.size) ⊎ (8 < l.align)
    → large_pages l < 2 ^ 32
    → let (ptr, st') = alloc l st in
      (ptr ≡ null)
      ⊎ ((base : ℕ) × (st'.os.calls
            ≡ Call.mmap base (large_pages l * page_size % 2 ^ 64) ∷ st.os.calls)
          × ((dealloc ptr st').os.calls
              ≡ Call.munmap base (large_pages l * page_size % 2 ^ 64) ∷ st'.os.calls))
unfolding alloc
dealloc-alloc_large {l} {st} lay ok big few = elim (Bool-cases (l.size == 0)) [
  | inl empty ↦ inl (rw (empty, alloc) refl)
  | inr full ↦
      let uncached : (leb l.size max_cache_size && leb l.align 8) ≡ false = ground arith in
      rw (full, alloc, uncached)
        (elim (alloc_large-calls lay ok) [
          | inl refused ↦ inl refused
          | inr (base, large, calls) ↦ inr (base, calls, dealloc-large large few)
        ])
]
