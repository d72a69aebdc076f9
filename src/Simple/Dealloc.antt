-- ===== src/Simple/Dealloc.antt =====
-- `AethAlloc::dealloc` in simple-cache mode.
use aethalloc.Prelude.{
  ℕ, zero, suc, ◌+◌, ◌-◌, ◌/◌, ◌%◌, ◌^◌, max, Bool, Option, none, some, List, ◌&&◌, not, leb, ltb,
  ◌==◌, if◌then◌else◌,
}
use aethalloc.SizeClass.{round_up_pow2, size_to_class}
use aethalloc.Global.Memory.{
  load64, read_page_header, read_large_header, page_header_from_ptr, magic, large_magic,
  cache_header_size, large_header_size, max_cache_size,
}
use aethalloc.Simple.{
  State, head, count, set_head, set_count, write_word, read_word, maybe_flush, page_dealloc,
  push_local, push_batch,
}

abbrev pub max_free_list_length : ℕ
max_free_list_length = 4096

unfoldable pub count_free : State → State
unfolding maybe_flush
count_free st =
    maybe_flush (record st { metrics = record (st.metrics) { frees = st.metrics.frees + 1 } })

-- The walk along the list to its block numbered `flush_count`, of which `left` steps are to go; it
-- stops at null.
unfoldable pub walk : (left block : ℕ) → State → ℕ
walk zero block st = block
walk (suc left) block st =
    let rest = walk left (read_word block st) st in if block == 0 then block else rest

-- The thread's list up to `batch_tail` goes to the global list.
unfoldable pub flush_to :
    (rounds : List Bool) → (class flush_count batch_tail : ℕ) → State → Option State
unfolding push_batch
flush_to rounds class flush_count batch_tail st =
    let batch_head = head class st in
    let new_local_head = read_word batch_tail st in
    let st' =
      set_count class ((count class st + 2 ^ 64 - flush_count) % 2 ^ 64)
        (set_head class new_local_head (write_word batch_tail 0 st)) in
    if batch_tail == 0 then some st else push_batch rounds class batch_head batch_tail st'

-- The first half of the thread's list.
unfoldable pub flush : (rounds : List Bool) → (class : ℕ) → State → Option State
unfolding walk flush_to
flush rounds class st =
    let flush_count = count class st / 2 in
    flush_to rounds class flush_count (walk (flush_count - 1) (head class st) st) st

unfoldable pub dealloc_small : (rounds : List Bool) → (class block : ℕ) → State → Option State
unfolding push_local count_free flush
dealloc_small rounds class block st =
    let st' = count_free (push_local class block st) in
    if leb max_free_list_length (count class st') then flush rounds class st' else some st'

-- The pages behind a page header are unmapped if it is one.
unfoldable pub unmap_page_header : ℕ → State → State
unfolding page_dealloc
unmap_page_header base st =
    let header = read_page_header st.memory base in
    if (header.magic_word == magic) && ltb 0 header.num_pages
    then page_dealloc base header.num_pages st
    else st

unfoldable pub dealloc_large : ℕ → State → State
unfolding unmap_page_header count_free
dealloc_large ptr st =
    count_free
      (unmap_page_header (read_large_header st.memory (ptr - large_header_size)).base_ptr st)

unfoldable pub dealloc_page_header : ℕ → State → State
unfolding unmap_page_header count_free
dealloc_page_header ptr st = count_free (unmap_page_header (page_header_from_ptr ptr) st)

-- The test for a small block: its header holds a size, and is no page header.
unfoldable pub is_cached : ℕ → State → Bool
is_cached ptr st =
    let size = load64 st.memory (ptr - cache_header_size) in
    (ltb 0 size && leb size max_cache_size)
    && not ((read_page_header st.memory (ptr - cache_header_size)).magic_word == magic)

unfoldable pub is_large : ℕ → State → Bool
is_large ptr st = (read_large_header st.memory (ptr - large_header_size)).magic_word == large_magic

unfoldable pub dealloc : (rounds : List Bool) → ℕ → State → Option State
unfolding is_large is_cached dealloc_large dealloc_small dealloc_page_header
dealloc rounds ptr st =
    if ptr == 0
    then some st
    else if is_large ptr st
    then some (dealloc_large ptr st)
    else if is_cached ptr st
    then (let size = load64 st.memory (ptr - cache_header_size) in
        elim (size_to_class (max (round_up_pow2 size) 16)) [
          | none ↦ some (dealloc_page_header ptr st)
          | some class ↦ dealloc_small rounds class (ptr - cache_header_size) st
        ])
    else some (dealloc_page_header ptr st)
