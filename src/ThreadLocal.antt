-- ===== src/ThreadLocal.antt =====
-- aethalloc-core/src/thread_local.rs: free blocks in one list for each size, linked through their
-- first eight bytes.
pub mod Reuse
use aethalloc.Prelude.{
  ℕ, zero, suc, ◌+◌, ◌-◌, ◌*◌, ◌/◌, ◌%◌, ◌^◌, max, Bool, true, false, Option, none, some, List, [],
  ◌∷◌, ◌&&◌, leb, ltb, ◌==◌, if◌then◌else◌, get_or, set, replicate, trailing_zeros, shl, div_ceil,
}
use aethalloc.SizeClass.{SizeClass, tiny, small, medium, large, classify, round_up_pow2}
use aethalloc.Page
use aethalloc.Page.{Os, page_size}
use aethalloc.Global.Memory.{Memory, store64, load64}

abbrev pub tiny_classes : ℕ
tiny_classes = 4

abbrev pub small_classes : ℕ
small_classes = 6

abbrev pub cache_size : ℕ
cache_size = 32

-- `None` is the null pointer, 0.
pub record CacheSlot : Type 0 where
  pub head : ℕ
  pub count : ℕ

abbrev pub empty_slot : CacheSlot
empty_slot = record { head = 0; count = 0 }

-- The cache, with the memory and the operating system that it works on.
pub record ThreadLocalCache : Type 0 where
  pub tiny_slots : List CacheSlot
  pub small_slots : List CacheSlot
  pub memory : Memory
  pub os : Os

abbrev pub new : Memory → Os → ThreadLocalCache
new memory os = record {
  tiny_slots = replicate tiny_classes empty_slot;
  small_slots = replicate small_classes empty_slot;
  memory = memory;
  os = os;
}

unfoldable pub size_for_index : Bool → ℕ → ℕ
size_for_index true idx = shl 16 idx
size_for_index false idx = shl 256 idx

-- `(is_tiny, idx)`: which of the arrays `tiny` and `small`, and where in it.
unfoldable pub get_slot : ℕ → Option (Bool × ℕ)
get_slot size = elim (classify size) [
  | tiny ↦
      let rounded = max (round_up_pow2 size) 16 in
      if ltb 128 rounded
      then none
      else let idx = trailing_zeros (rounded / 16) in
        if ltb idx tiny_classes then some (true, idx) else none
  | small ↦
      let rounded = round_up_pow2 size in
      if leb 256 rounded && leb rounded 8192
      then (let idx = trailing_zeros (rounded / 256) in
          if ltb idx small_classes then some (false, idx) else none)
      else none
  | medium ↦ none
  | large ↦ none
]

unfoldable pub slot : ThreadLocalCache → Bool → ℕ → CacheSlot
slot c true idx = get_or c.tiny_slots idx empty_slot
slot c false idx = get_or c.small_slots idx empty_slot

unfoldable pub with_slot : ThreadLocalCache → Bool → ℕ → CacheSlot → ThreadLocalCache
with_slot c true idx s = record c { tiny_slots = set c.tiny_slots idx s }
with_slot c false idx s = record c { small_slots = set c.small_slots idx s }

-- The head of the slot, or fresh pages.
unfoldable pub alloc_slot : Bool → ℕ → ThreadLocalCache → Option ℕ × ThreadLocalCache
alloc_slot is_tiny idx c =
    let s = slot c is_tiny idx in
    if s.head == 0
    then (let (page, os) =
          Page.alloc (max (div_ceil (size_for_index is_tiny idx) page_size) 1) c.os in
        (page, record c { os = os }))
    else (
      some s.head,
      with_slot c is_tiny idx
          (record { head = load64 c.memory s.head; count = (2 ^ 64 + s.count - 1) % 2 ^ 64 }),
    )

unfoldable pub alloc : ℕ → ThreadLocalCache → Option ℕ × ThreadLocalCache
unfolding alloc_slot
alloc size c = elim (get_slot size) [
  | none ↦ (none, c)
  | some (is_tiny, idx) ↦ alloc_slot is_tiny idx c
]

-- The pages of a block that no slot takes.
unfoldable pub free_directly : (ptr size : ℕ) → ThreadLocalCache → ThreadLocalCache
free_directly ptr size c =
    let pages = div_ceil (round_up_pow2 size) page_size in
    if ltb 0 pages then record c { os = Page.dealloc ptr pages c.os } else c

unfoldable pub dealloc : (ptr size : ℕ) → ThreadLocalCache → ThreadLocalCache
unfolding free_directly
dealloc ptr size c = elim (get_slot size) [
  | none ↦ free_directly ptr size c
  | some (is_tiny, idx) ↦
      let s = slot c is_tiny idx in
      if leb cache_size s.count
      then free_directly ptr size c
      else record (with_slot c is_tiny idx (record { head = ptr; count = s.count + 1 })) {
        memory = store64 c.memory ptr s.head;
      }
]

-- The loop of `clear_slot` from a block on, for at most `fuel` blocks.
unfoldable pub unmap_list : (fuel current pages : ℕ) → Memory → Os → Os
unmap_list zero current pages memory os = os
unmap_list (suc fuel) current pages memory os =
    let next =
      unmap_list fuel (load64 memory current) pages memory (Page.dealloc current pages os) in
    if current == 0 then os else next

-- The list of a slot has no more blocks than its count says.
unfoldable pub clear_slot : Bool → ℕ → ThreadLocalCache → ThreadLocalCache
unfolding unmap_list
clear_slot is_tiny idx c =
    let s = slot c is_tiny idx in
    record (with_slot c is_tiny idx empty_slot) {
      os =
          unmap_list s.count s.head (div_ceil (size_for_index is_tiny idx) page_size) c.memory c.os;
    }

unfoldable pub clear_slots : Bool → (idx n : ℕ) → ThreadLocalCache → ThreadLocalCache
unfolding clear_slot
clear_slots is_tiny idx zero c = c
clear_slots is_tiny idx (suc n) c = clear_slots is_tiny (idx + 1) n (clear_slot is_tiny idx c)

unfoldable pub clear : ThreadLocalCache → ThreadLocalCache
unfolding clear_slots
clear c = clear_slots false 0 small_classes (clear_slots true 0 tiny_classes c)
