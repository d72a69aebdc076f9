-- ===== src/Simple/Alloc.antt =====
-- `AethAlloc::alloc` in simple-cache mode.
use aethalloc.Prelude.{
  ℕ, zero, suc, ◌+◌, ◌-◌, ◌*◌, ◌/◌, max, Bool, Option, none, some, List, ◌&&◌, leb, ltb, ◌==◌,
  if◌then◌else◌, div_ceil, ◌>>=◌,
}
use aethalloc.SizeClass.{round_up_pow2, size_to_class}
use aethalloc.Page.{page_size}
use aethalloc.Global.Memory.{
  write_page_header, write_large_header, align_up, magic, large_magic, page_header_size,
  cache_header_size, large_header_size, max_cache_size,
}
use aethalloc.Global.Alloc.{Layout, large_pages}
use aethalloc.Simple.{
  State, head, free_list, write_word, maybe_flush, page_alloc, push_local, pop_local, pop_batch,
}

abbrev pub global_free_batch : ℕ
global_free_batch = 128

-- The header of a small block holds the size of the request; the pointer lies behind it.
unfoldable pub hand_out : (block size : ℕ) → State → ℕ × State
hand_out block size st = (block + cache_header_size, write_word block size st)

-- The first block of the thread's list is handed out.
unfoldable pub hit : (class size : ℕ) → State → ℕ × State
unfolding pop_local maybe_flush hand_out
hit class size st =
    let block = head class st in
    let st' = pop_local class st in
    let m = record (st'.metrics) {
      cache_hits = st'.metrics.cache_hits + 1;
      allocs = st'.metrics.allocs + 1;
    } in
    hand_out block size (maybe_flush (record st' { metrics = m }))

-- A block of whole pages.
unfoldable pub fresh_pages : (block_size size : ℕ) → State → ℕ × State
unfolding page_alloc maybe_flush hand_out
fresh_pages block_size size st =
    let (base, st') = page_alloc (max (div_ceil block_size page_size) 1) st in
    elim base [ none ↦ (0, st') | some addr ↦ hand_out addr size (maybe_flush st') ]

-- The blocks from the one numbered `i` on go to the thread's list, `left` of them.
unfoldable pub push_blocks : (class base block_size i left : ℕ) → State → State
unfolding push_local
push_blocks class base block_size i zero st = st
push_blocks class base block_size i (suc left) st =
    push_blocks class base block_size (i + 1) left (push_local class (base + i * block_size) st)

-- A new page, cut into blocks: the first is handed out, the others go to the thread's list.
unfoldable pub fresh_blocks : (class block_size size : ℕ) → State → ℕ × State
unfolding page_alloc push_blocks fresh_pages maybe_flush hand_out
fresh_blocks class block_size size st =
    if ltb 1 (page_size / block_size)
    then (let (base, st') = page_alloc 1 st in
        elim base [
          | none ↦ fresh_pages block_size size st'
          | some addr ↦
              hand_out addr size
                (maybe_flush (push_blocks class addr block_size 1 (page_size / block_size - 1) st'))
        ])
    else fresh_pages block_size size st

unfoldable pub miss : (class cache_size size : ℕ) → State → ℕ × State
unfolding fresh_blocks
miss class cache_size size st =
    let m = record (st.metrics) {
      cache_misses = st.metrics.cache_misses + 1;
      allocs = st.metrics.allocs + 1;
    } in
    fresh_blocks class (cache_size + cache_header_size) size (record st { metrics = m })

-- From the thread's list, from the global list, or from new pages.
unfoldable pub alloc_small :
    (rounds : ℕ → List Bool) (class cache_size size : ℕ) → State → Option (ℕ × State)
unfolding hit pop_batch miss
alloc_small rounds class cache_size size st =
    if head class st == 0
    then (if free_list class st == 0 then some (miss class cache_size size st) else (do
      (transferred, st') ← pop_batch rounds global_free_batch class st
      if ltb 0 transferred
          then some (hit class size st')
          else some (miss class cache_size size st')))
    else some (hit class size st)

-- The two headers of a large allocation, at its base and right below the pointer.
unfoldable pub place_large : Layout → ℕ → State → ℕ × State
unfolding large_pages
place_large l base st =
    let user = align_up (base + page_header_size + large_header_size) l.align in
    let m =
      write_page_header st.memory base
        (record { magic_word = magic; num_pages = large_pages l; requested_size = l.size }) in
    (
      user,
      record st {
        memory =
            write_large_header m (user - large_header_size)
              (record { magic_word = large_magic; base_ptr = base });
      },
    )

unfoldable pub alloc_large : Layout → State → ℕ × State
unfolding place_large page_alloc maybe_flush
alloc_large l st =
    let m = record (st.metrics) {
      direct_allocs = st.metrics.direct_allocs + 1;
      allocs = st.metrics.allocs + 1;
    } in
    let (base, st') = page_alloc (large_pages l) (maybe_flush (record st { metrics = m })) in
    elim base [ none ↦ (0, st') | some addr ↦ place_large l addr st' ]

-- `none` is a swap on a global list that has not ended.
unfoldable pub alloc : (rounds : ℕ → List Bool) → Layout → State → Option (ℕ × State)
unfolding alloc_small alloc_large
alloc rounds l st =
    if l.size == 0
    then some (0, st)
    else if leb l.size max_cache_size && leb l.align 8
    then (let cache_size = max (round_up_pow2 l.size) 16 in
        elim (size_to_class cache_size) [
          | none ↦ some (alloc_large l st)
          | some class ↦ alloc_small rounds class cache_size l.size st
        ])
    else some (alloc_large l st)
