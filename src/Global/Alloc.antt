-- ===== src/Global/Alloc.antt =====
-- `AethAlloc::alloc` in magazine-caching mode, one function for each place it may take a block from.
use aethalloc.Prelude.{
  ℕ, ◌+◌, ◌-◌, ◌/◌, ◌^◌, ◌≤◌, ◌≡◌, max, none, some, [], ◌∷◌, ◌&&◌, leb, ltb, ◌==◌, if◌then◌else◌,
  set, div_ceil,
}
use aethalloc.SizeClass.{round_up_pow2, size_to_class}
use aethalloc.Magazine
use aethalloc.Magazine.{Magazine, null}
use aethalloc.Page.{page_size}
use aethalloc.Global.Memory.{
  store64, write_page_header, write_large_header, align_up, magic, large_magic, page_header_size,
  cache_header_size, large_header_size, max_cache_size,
}
use aethalloc.Global.State.{
  State, GlobalMagazinePool, alloc_mag, free_mag, pool, maybe_flush, page_alloc,
}

pub record Layout : Type 0 where
  pub size : ℕ
  pub align : ℕ

-- What `Layout` guarantees of its two fields.
pub record IsLayout (l : Layout) : Type 0 where
  pub log_align : ℕ
  pub power : l.align ≡ 2 ^ log_align
  pub log_small : log_align ≤ 62
  pub fits : l.size + l.align ≤ 2 ^ 63

-- The header of a small block holds the size of the request; the pointer lies behind it.
unfoldable pub hand_out : (block size : ℕ) → State → ℕ × State
hand_out block size st =
    (block + cache_header_size, record st { memory = store64 st.memory block size })

unfoldable pub hit : (block size : ℕ) → State → ℕ × State
unfolding hand_out
hit block size st =
    let m = record (st.metrics) {
      cache_hits = st.metrics.cache_hits + 1;
      allocs = st.metrics.allocs + 1;
    } in
    hand_out block size (maybe_flush (record st { metrics = m }))

-- A block of whole pages.
unfoldable pub fresh_pages : (block_size size : ℕ) → State → ℕ × State
fresh_pages block_size size st =
    let (base, st') = page_alloc (max (div_ceil block_size page_size) 1) st in
    elim base [ none ↦ (null, st') | some addr ↦ hand_out addr size (maybe_flush st') ]

-- A new page, cut into blocks: the first is handed out, the others go to the magazine.
unfoldable pub fresh_blocks : (class block_size size : ℕ) → State → ℕ × State
unfolding fresh_pages
fresh_blocks class block_size size st =
    if ltb 1 (page_size / block_size)
    then (let (base, st') = page_alloc 1 st in
        elim base [
          | none ↦ fresh_pages block_size size st'
          | some addr ↦
              let mag =
                Magazine.bulk_init (alloc_mag st' class) (addr + block_size) block_size
                  (page_size / block_size - 1) in
              hand_out addr size
                (maybe_flush (record st' { alloc_mags = set st'.alloc_mags class mag }))
        ])
    else fresh_pages block_size size st

unfoldable pub miss : (class cache_size size : ℕ) → State → ℕ × State
unfolding fresh_blocks
miss class cache_size size st =
    let m = record (st.metrics) {
      cache_misses = st.metrics.cache_misses + 1;
      allocs = st.metrics.allocs + 1;
    } in
    fresh_blocks class (cache_size + cache_header_size) size (record st { metrics = m })

-- A full magazine of the global pool is swapped in, and its node goes to the empty stack.
unfoldable pub from_pool : (class cache_size size : ℕ) → State → ℕ × State
unfolding miss hit
from_pool class cache_size size st = elim ((pool st class).full) [
  | [] ↦ miss class cache_size size st
  | node ∷ rest ↦
      let used = record node { magazine = Magazine.clear (alloc_mag st class) } in
      let swapped : GlobalMagazinePool = record {
        full = rest;
        empty = used ∷ (pool st class).empty;
      } in
      let (out, mag) = Magazine.pop node.magazine in
      let st' = record st {
        alloc_mags = set st.alloc_mags class mag;
        pools = set st.pools class swapped;
      } in
      elim out [ none ↦ miss class cache_size size st' | some block ↦ hit block size st' ]
]

-- The two local magazines are swapped if the one for frees holds a block.
unfoldable pub from_free : (class cache_size size : ℕ) → State → ℕ × State
unfolding from_pool
from_free class cache_size size st =
    if Magazine.is_empty (free_mag st class)
    then from_pool class cache_size size st
    else (let (out, mag) = Magazine.pop (free_mag st class) in
        let st' = record st {
          alloc_mags = set st.alloc_mags class mag;
          free_mags = set st.free_mags class (alloc_mag st class);
        } in
        elim out [ none ↦ from_pool class cache_size size st' | some block ↦ hit block size st' ])

unfoldable pub alloc_small : (class cache_size size : ℕ) → State → ℕ × State
unfolding from_free
alloc_small class cache_size size st =
    let (out, mag) = Magazine.pop (alloc_mag st class) in
    elim out [
      | none ↦ from_free class cache_size size st
      | some block ↦ hit block size (record st { alloc_mags = set st.alloc_mags class mag })
    ]

unfoldable pub large_pages : Layout → ℕ
large_pages l = max (div_ceil (page_header_size + large_header_size + l.size + l.align) page_size) 1

-- The two headers of a large allocation, at its base and right below the pointer.
unfoldable pub place_large : Layout → ℕ → State → ℕ × State
unfolding large_pages
place_large l base st =
    let user = align_up (base + page_header_size + large_header_size) l.align in
    let m =
      write_page_header st.memory base
        (record { magic_word = magic; num_pages = large_pages l; requested_size = l.size }) in
    (
      user,
      record st {
        memory =
            write_large_header m (user - large_header_size)
              (record { magic_word = large_magic; base_ptr = base });
      },
    )

unfoldable pub alloc_large : Layout → State → ℕ × State
unfolding place_large
alloc_large l st =
    let m = record (st.metrics) {
      direct_allocs = st.metrics.direct_allocs + 1;
      allocs = st.metrics.allocs + 1;
    } in
    let (base, st') = page_alloc (large_pages l) (maybe_flush (record st { metrics = m })) in
    elim base [ none ↦ (null, st') | some addr ↦ place_large l addr st' ]

unfoldable pub alloc : Layout → State → ℕ × State
unfolding alloc_small alloc_large
alloc l st =
    if l.size == 0
    then (null, st)
    else if leb l.size max_cache_size && leb l.align 8
    then (let cache_size = max (round_up_pow2 l.size) 16 in
        elim (size_to_class cache_size) [
          | none ↦ alloc_large l st
          | some class ↦ alloc_small class cache_size l.size st
        ])
    else alloc_large l st
