-- ===== src/Tests/Slabs.antt =====
-- The slabs, the buddy blocks, the thread-local cache and the tags on concrete inputs.
use aethalloc.Prelude.{
  ◌^◌, ◌-◌, ◌+◌, ◌≡◌, inl, arith, true, false, none, some, [], ◌∷◌, refl, word_methods, length,
  get_or,
}
use aethalloc.SizeClass.{classify, round_up_pow2}
use aethalloc.Page.{Os}
use aethalloc.Buddy
use aethalloc.Buddy.{BuddyAllocator, split, min_order, num_orders}
use aethalloc.Buddy.Splitting.{split_lem}
use aethalloc.Slab
use aethalloc.Slab.{Slab}
use aethalloc.Slab.Accounts.{SlabOk, alloc-SlabOk}
use aethalloc.ThreadLocal
use aethalloc.ThreadLocal.{ThreadLocalCache, get_slot, slot}
use aethalloc.ThreadLocal.Reuse.{CacheOk, alloc-dealloc}

abbrev os : Os
os = record { answers = some 65536 ∷ []; calls = [] }

-- A slab of 64-byte slots with one page, of which two slots were taken and one was given back.
abbrev used : Slab
used = record {
  slot_size = 64;
  slots_per_page = 64;
  free_slots = 65600 ∷ [];
  allocated = 1;
  pages = some 65536 ∷ none ∷ none ∷ none ∷ [];
  num_pages = 1;
  next_slot = 2;
  os = os;
}

used-SlabOk : SlabOk used
used-SlabOk = record {
  few_pages = omega arith;
  begun = inl (omega arith);
  in_page = omega arith;
  used = refl;
}

alloc-SlabOk_example : SlabOk (Slab.alloc used).1
alloc-SlabOk_example = alloc-SlabOk used-SlabOk (omega arith)

abbrev cache : ThreadLocalCache
cache = ThreadLocal.new (λ a. 0) os

cache-Ok : CacheOk cache
cache-Ok = record { tiny_length = refl; small_length = refl }

slot_100 : get_slot 100 ≡ some (true, 3)
unfolding get_slot classify round_up_pow2 word_methods
slot_100 = refl

alloc-dealloc_example :
    let (out, c') = ThreadLocal.alloc 100 (ThreadLocal.dealloc 65536 100 cache) in
    (out ≡ some 65536) × (slot c' true 3 ≡ slot cache true 3) × (c'.os.calls ≡ cache.os.calls)
unfolding slot
alloc-dealloc_example =
    alloc-dealloc 65536 100 3 true cache cache-Ok slot_100 (omega arith) (omega arith) (omega arith)
      (omega arith)

-- A region of 256 KiB, as one block.
abbrev region : BuddyAllocator
region =
    Buddy.init 65536 (2 ^ 18) (Buddy.new (λ a. record { order = 0; is_free = false; next = 0 }) os)

region_lists : length region.free_lists ≡ num_orders
unfolding Buddy.init Buddy.new word_methods
region_lists = refl

split_lem_example :
    let b' = split 3 65536 18 region in
    ((b'.headers 65536).order ≡ 18 - 3)
    × (get_or b'.free_lists (18 - 3 - min_order) 0 ≡ 65536 + 2 ^ (18 - 3))
split_lem_example =
    split_lem 3 65536 18 region region_lists (omega arith) (omega arith) (omega arith)
