-- ===== src/Global/Dealloc.antt =====
-- `AethAlloc::dealloc` in magazine-caching mode, and `get_alloc_size`.
use aethalloc.Prelude.{
  ℕ, ◌+◌, ◌-◌, max, Bool, none, some, ◌∷◌, ◌&&◌, not, leb, ltb, ◌==◌, if◌then◌else◌, set,
}
use aethalloc.SizeClass.{round_up_pow2, size_to_class}
use aethalloc.Magazine
use aethalloc.Global.Memory.{
  load64, read_page_header, read_large_header, page_header_from_ptr, magic, large_magic,
  cache_header_size, large_header_size, max_cache_size,
}
use aethalloc.Global.State.{
  State, MagazineNode, free_mag, pool, maybe_flush, page_dealloc, alloc_node,
}

unfoldable pub count_free : State → State
count_free st =
    maybe_flush (record st { metrics = record (st.metrics) { frees = st.metrics.frees + 1 } })

-- The pages behind a page header are unmapped if it is one.
unfoldable pub unmap_page_header : ℕ → State → State
unmap_page_header base st =
    let header = read_page_header st.memory base in
    if (header.magic_word == magic) && ltb 0 header.num_pages
    then page_dealloc base header.num_pages st
    else st

unfoldable pub dealloc_large : ℕ → State → State
unfolding unmap_page_header count_free
dealloc_large ptr st =
    count_free
      (unmap_page_header (read_large_header st.memory (ptr - large_header_size)).base_ptr st)

-- A full magazine of freed blocks goes to the global pool, if there is a node for it.
unfoldable pub retire_magazine : ℕ → State → State
retire_magazine class st =
    let (node, st') = alloc_node st in
    if node == 0
    then st'
    else (let (taken, left) = Magazine.mem_take (free_mag st' class) in
        let entry : MagazineNode = record { addr = node; magazine = taken } in
        record st' {
          free_mags = set st'.free_mags class left;
          pools =
              set st'.pools class
                (record (pool st' class) { full = entry ∷ (pool st' class).full });
        })

unfoldable pub dealloc_small : (class block : ℕ) → State → State
unfolding count_free
dealloc_small class block st =
    let (done, mag) = Magazine.push (free_mag st class) block in
    if done
    then count_free (record st { free_mags = set st.free_mags class mag })
    else (let st' = retire_magazine class st in
        let (_, mag') = Magazine.push (free_mag st' class) block in
        count_free (record st' { free_mags = set st'.free_mags class mag' }))

unfoldable pub dealloc_page_header : ℕ → State → State
unfolding unmap_page_header count_free
dealloc_page_header ptr st = count_free (unmap_page_header (page_header_from_ptr ptr) st)

-- The test for a small block: its header holds a size, and is no page header.
unfoldable pub is_cached : ℕ → State → Bool
is_cached ptr st =
    let size = load64 st.memory (ptr - cache_header_size) in
    (ltb 0 size && leb size max_cache_size)
    && not ((read_page_header st.memory (ptr - cache_header_size)).magic_word == magic)

unfoldable pub is_large : ℕ → State → Bool
is_large ptr st = (read_large_header st.memory (ptr - large_header_size)).magic_word == large_magic

unfoldable pub dealloc : ℕ → State → State
unfolding is_large is_cached dealloc_large dealloc_small dealloc_page_header
dealloc ptr st =
    if ptr == 0
    then st
    else if is_large ptr st
    then dealloc_large ptr st
    else if is_cached ptr st
    then (let size = load64 st.memory (ptr - cache_header_size) in
        elim (size_to_class (max (round_up_pow2 size) 16)) [
          | none ↦ dealloc_page_header ptr st
          | some class ↦ dealloc_small class (ptr - cache_header_size) st
        ])
    else dealloc_page_header ptr st

unfoldable pub header_size : ℕ → State → ℕ
header_size base st =
    let header = read_page_header st.memory base in
    if header.magic_word == magic then header.requested_size else 0

unfoldable pub get_alloc_size : ℕ → State → ℕ
unfolding is_large is_cached header_size
get_alloc_size ptr st =
    if ptr == 0
    then 0
    else if is_large ptr st
    then header_size (read_large_header st.memory (ptr - large_header_size)).base_ptr st
    else if is_cached ptr st
    then load64 st.memory (ptr - cache_header_size)
    else header_size (page_header_from_ptr ptr) st
