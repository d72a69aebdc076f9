-- ===== src/Buddy.antt =====
-- aethalloc-core/src/buddy.rs: blocks of 2^14 to 2^18 bytes that are split and joined again.
pub mod Splitting
use aethalloc.Prelude.{
  ℕ, zero, suc, ◌+◌, ◌-◌, ◌/◌, ◌^◌, min, max, Bool, true, false, Option, none, some, List, ◌&&◌,
  not, leb, ltb, ◌==◌, if◌then◌else◌, get_or, set, replicate, trailing_zeros, bit_xor,
}
use aethalloc.Page
use aethalloc.Page.{Os, page_size}

abbrev pub min_order : ℕ
min_order = 14

abbrev pub max_order : ℕ
max_order = 18

abbrev pub num_orders : ℕ
num_orders = 5

abbrev pub block_header_size : ℕ
block_header_size = 16

-- A null pointer stands for `None`.
pub record BlockHeader : Type 0 where
  pub order : ℕ
  pub is_free : Bool
  pub next : ℕ

-- The headers in memory, by the address of their block: blocks start at least 2^14 bytes apart.
abbrev pub Headers : Type 0
Headers = ℕ → BlockHeader

unfoldable pub write_header : ℕ → BlockHeader → Headers → Headers
write_header block h headers addr = if addr == block then h else headers addr

pub record BuddyAllocator : Type 0 where
  pub free_lists : List ℕ
  pub base : ℕ
  pub region_size : ℕ
  pub headers : Headers
  pub os : Os

unfoldable pub new : Headers → Os → BuddyAllocator
new headers os = record {
  free_lists = replicate num_orders 0;
  base = 0;
  region_size = 0;
  headers = headers;
  os = os;
}

unfoldable pub init : (ptr size : ℕ) → BuddyAllocator → BuddyAllocator
init ptr size b =
    let order = min (max (trailing_zeros size) min_order) max_order in
    record b {
      base = ptr;
      region_size = size;
      headers = write_header ptr (record { order = order; is_free = true; next = 0 }) b.headers;
      free_lists = set b.free_lists (order - min_order) ptr;
    }

-- The search for a list with a block, from an index on, for at most `rounds` lists.
unfoldable pub find_order : (rounds idx : ℕ) → List ℕ → ℕ
find_order zero idx lists = idx
find_order (suc rounds) idx lists =
    let later = find_order rounds (idx + 1) lists in
    if ltb idx num_orders && (get_or lists idx 0 == 0) then later else idx

-- One round of `split`: the upper half of a block of order `current` becomes free.
unfoldable pub split_once : (block current : ℕ) → BuddyAllocator → BuddyAllocator
split_once block current b =
    let buddy = block + 2 ^ (current - 1) in
    let buddy_idx = current - min_order - 1 in
    let freed =
      write_header buddy
        (record { order = current - 1; is_free = true; next = get_or b.free_lists buddy_idx 0 })
        b.headers in
    record b {
      headers = write_header block (record (freed block) { order = current - 1 }) freed;
      free_lists = set b.free_lists buddy_idx buddy;
    }

-- `rounds` rounds of `split`, from the order `current` down.
unfoldable pub split : (rounds block current : ℕ) → BuddyAllocator → BuddyAllocator
unfolding split_once
split zero block current b = b
split (suc rounds) block current b = split rounds block (current - 1) (split_once block current b)

-- A block is taken from the list `found` and split down to `order`.
unfoldable pub take_block : (found order : ℕ) → BuddyAllocator → Option ℕ × BuddyAllocator
unfolding split
take_block found order b =
    let block = get_or b.free_lists found 0 in
    let taken = record b { free_lists = set b.free_lists found ((b.headers block).next) } in
    let cut = split (found + min_order - order) block (found + min_order) taken in
    (
      some (block + block_header_size),
      record cut {
        headers =
            write_header block (record (cut.headers block) { is_free = false; next = 0 })
              cut.headers;
      },
    )

-- `alloc`, which after the set-up of a new region calls itself, for at most `calls` calls.
unfoldable pub alloc_within : (calls size : ℕ) → BuddyAllocator → Option ℕ × BuddyAllocator
unfolding take_block init find_order
alloc_within zero size b = (none, b)
alloc_within (suc calls) size b =
    let order = trailing_zeros size in
    let (page, os) = Page.alloc (2 ^ max_order / page_size) b.os in
    let fresh = record b { os = os } in
    let again = λ (ptr : ℕ). alloc_within calls (2 ^ order) (init ptr (2 ^ max_order) fresh) in
    if leb min_order order && leb order max_order
    then (let found = find_order num_orders (order - min_order) b.free_lists in
        if leb num_orders found
        then elim page [ none ↦ (none, fresh) | some ptr ↦ again ptr ]
        else take_block found order b)
    else (none, b)

-- A new region has a block of the highest order, so a second call always finds one.
unfoldable pub alloc : ℕ → BuddyAllocator → Option ℕ × BuddyAllocator
unfolding alloc_within
alloc size b = alloc_within 2 size b

-- `remove_from_free_list` from a block `current` on, for at most `fuel` blocks.
unfoldable pub unlink : (fuel block idx prev current : ℕ) → BuddyAllocator → BuddyAllocator
unlink zero block idx prev current b = b
unlink (suc fuel) block idx prev current b =
    let next = (b.headers current).next in
    let later = unlink fuel block idx current next b in
    if current == 0
    then b
    else if current == block
    then if prev == 0 then record b { free_lists = set b.free_lists idx next } else record b {
      headers = write_header prev (record (b.headers prev) { next = next }) b.headers;
    }
    else later

-- A list has no more blocks than the region has room for.
unfoldable pub remove_from_free_list : (block idx : ℕ) → BuddyAllocator → BuddyAllocator
unfolding unlink
remove_from_free_list block idx b =
    unlink (b.region_size / 2 ^ min_order + 1) block idx 0 (get_or b.free_lists idx 0) b

-- The end of `coalesce`: the block goes to the list of its order.
unfoldable pub put_block : (block order : ℕ) → BuddyAllocator → BuddyAllocator
put_block block order b =
    let idx = order - min_order in
    record b {
      headers =
          write_header block (record (b.headers block) { next = get_or b.free_lists idx 0 })
            b.headers;
      free_lists = set b.free_lists idx block;
    }

-- Whether the buddy of a block is in the region, free and of the same order.
unfoldable pub joins : (buddy order : ℕ) → BuddyAllocator → Bool
joins buddy order b =
    (not (b.base == 0) && (leb b.base buddy && ltb buddy (b.base + b.region_size)))
    && ((b.headers buddy).is_free && ((b.headers buddy).order == order))

-- The loop of `coalesce`, with `rounds` orders below the highest.
unfoldable pub coalesce : (rounds block order : ℕ) → BuddyAllocator → BuddyAllocator
unfolding joins remove_from_free_list put_block
coalesce zero block order b = put_block block order b
coalesce (suc rounds) block order b =
    let buddy = bit_xor block (2 ^ order) in
    let alone = remove_from_free_list buddy (order - min_order) b in
    let joined = min block buddy in
    let grown = record alone {
      headers =
          write_header joined (record (alone.headers joined) { order = order + 1 }) alone.headers;
    } in
    let next = coalesce rounds joined (order + 1) grown in
    if joins buddy order b then next else put_block block order b

unfoldable pub dealloc : (ptr size : ℕ) → BuddyAllocator → BuddyAllocator
unfolding coalesce
dealloc ptr size b =
    let order = trailing_zeros size in
    let block = ptr - block_header_size in
    coalesce (max_order - order) block order (record b {
      headers =
          write_header block (record (b.headers block) { is_free = true; order = order }) b.headers;
    })

-- What a dropped allocator gives back.
unfoldable pub drop_region : BuddyAllocator → Os
drop_region b =
    if not (b.base == 0) && ltb 0 (b.region_size / page_size)
    then Page.dealloc b.base (b.region_size / page_size) b.os
    else b.os
