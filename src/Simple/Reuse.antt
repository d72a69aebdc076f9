-- ===== src/Simple/Reuse.antt =====
-- A small block that is released is the next one of its class to be handed out.
use aethalloc.Prelude.{
  ℕ, ◌+◌, ◌-◌, ◌%◌, ◌^◌, ◌≤◌, ◌<◌, ◌≡◌, refl, ◌∙◌, ap, arith, max, Bool, true, false, some, List,
  ◌&&◌, leb, ◌==◌, length, get_or-set_self, set-set_back,
}
use aethalloc.SizeClass.{round_up_pow2, size_to_class}
use aethalloc.Global.Memory.{store64, load64, num_size_classes, max_cache_size, cache_header_size}
use aethalloc.Global.Words.{load64-store64}
use aethalloc.Global.Alloc.{Layout}
use aethalloc.Global.Served.{Cached}
use aethalloc.Global.Sizes.{IsSmall}
use aethalloc.Simple.{State, head, count, push_local, pop_local, maybe_flush}
use aethalloc.Simple.Alloc.{alloc, alloc_small, hit, hand_out}
use aethalloc.Simple.Chains.{Seg-from_lt}
use aethalloc.Simple.Dealloc.{dealloc, dealloc_small, count_free, max_free_list_length}
use aethalloc.Simple.Invariant.{Lists, class_list, free_cover, Kept}
use aethalloc.Simple.Moves.{store64-outside}
use aethalloc.Simple.Frames.{Kept-same_lists}
use aethalloc.Global.Extents.{covers}
use aethalloc.Simple.Owners.{seen}
use aethalloc.Simple.Owners.Returning.{dealloc-small}

-- From `st` to `st'` no head and no count has changed and the kernel was not called, and in memory only
-- the first word of the block.
abbrev pub SameBut : (block : ℕ) → State → State → Type 0
SameBut block st st' =
    (st'.heads ≡ st.heads)
    × (st'.counts ≡ st.counts)
    × (st'.free_lists ≡ st.free_lists)
    × (st'.os ≡ st.os)
    × ((a : ℕ) → covers a block 8 ≡ 0 → st'.memory a ≡ st.memory a)

dealloc_small-room :
    (rounds : List Bool) (class block : ℕ) (st : State)
    → class < length st.counts
    → count class st < 4095
    → dealloc_small rounds class block st ≡ some (count_free (push_local class block st))
unfolding dealloc_small count_free maybe_flush push_local
dealloc_small-room rounds class block st lt room =
    let e = get_or-set_self st.counts class ((count class st + 1) % 2 ^ 64) 0 lt in
    let short : leb max_free_list_length ((count class st + 1) % 2 ^ 64) ≡ false = ground arith in
    rw (e, short) refl

alloc_small-push_local :
    (rounds : ℕ → List Bool) (class block n size : ℕ) (st : State)
    → class < length st.heads
    → class < length st.counts
    → 0 < block
    → head class st < 2 ^ 64
    → count class st < 4095
    → size < 2 ^ 64
    → (st' : State) × (alloc_small rounds class n size (count_free (push_local class block st))
        ≡ some (block + cache_header_size, st'))
      × SameBut block st st'
      × (load64 st'.memory block ≡ size)
unfolding alloc_small hit hand_out pop_local push_local count_free maybe_flush
alloc_small-push_local rounds class block n size st lt lt' pos fits room word =
    let own = get_or-set_self st.heads class block 0 lt in
    let own' = get_or-set_self st.counts class ((count class st + 1) % 2 ^ 64) 0 lt' in
    let full : (block == 0) ≡ false = ground arith in
    let link = load64-store64 st.memory block (head class st) fits in
    let back : ((count class st + 1) % 2 ^ 64 + 2 ^ 64 - 1) % 2 ^ 64 ≡ count class st =
      omega arith in
    let st1 = count_free (push_local class block st) in
    let test : (head class st1 == 0) ≡ false = rw own full in
    let st' = (hit class size st1).1 in
    (
      st',
      rw test (ap (λ (h : ℕ). some (h + cache_header_size, st')) own),
      (
        rw (own, link) (set-set_back st.heads class block 0),
        rw (own', back) (set-set_back st.counts class _ 0),
        refl,
        refl,
        λ a out. rw own (
            store64-outside (store64 st.memory block (head class st)) block size 8 a (omega arith)
              out
            ∙ store64-outside st.memory block (head class st) 8 a (omega arith) out),
      ),
      rw own (load64-store64 (store64 st.memory block (head class st)) block size word),
    )

-- A small block that lies apart from the free ones is released where the list of its class holds less
-- than 4095 blocks: a request that the lists of that class serve gets the same pointer back. No head and
-- no count of a list has then changed, no byte but in the first word of the block, which is the size of
-- the request, the kernel was not called, and the lists hold the same blocks in the same order.
pub alloc-dealloc_simple :
    (rounds : List Bool) (rounds' : ℕ → List Bool) (class ptr size : ℕ) (l : Layout) {st : State}
    {ls gs : Lists}
    → Kept st ls gs
    → (s : IsSmall ptr size (seen st)) → 16 < ptr
    → 0 < size
    → size ≤ max_cache_size
    → size_to_class (max (round_up_pow2 size) 16) ≡ some class
    → class < num_size_classes
    → length (class_list ls class) < 4095
    → 0 < l.size
    → Cached l
    → size_to_class (max (round_up_pow2 l.size) 16) ≡ some class
    → ((a : ℕ) → free_cover a ls gs + covers a s.block 8 ≤ 1)
    → (st1 : State) × (st2 : State) × (dealloc rounds ptr st ≡ some st1)
      × (alloc rounds' l st1 ≡ some (ptr, st2))
      × SameBut s.block st st2
      × (load64 st2.memory s.block ≡ l.size)
      × Kept st2 ls gs
unfolding alloc
alloc-dealloc_simple rounds rounds' class ptr size l {st} {ls} {gs} kept s above p h q lt room p'
      fits q' apart =
    let n = kept.counted class lt in
    let low =
      Seg-from_lt st.memory (head class st) (class_list ls class) (kept.local_lists class lt) in
    let none_zero : (l.size == 0) ≡ false = ground arith in
    let cached : (leb l.size max_cache_size && leb l.align 8) ≡ true = ground arith in
    let released =
      dealloc-small rounds class st s p h q
      ∙ dealloc_small-room rounds class s.block st (omega (arith, kept.counts_length))
          (omega arith) in
    let (st2, got, same, word) =
      alloc_small-push_local rounds' class s.block (max (round_up_pow2 l.size) 16) l.size st
        (omega (arith, kept.heads_length)) (omega (arith, kept.counts_length))
        (omega (arith, s.behind)) low (omega arith) (omega arith) in
    let (heads, counts, free_lists, os, memory) = same in
    let behind : s.block + cache_header_size ≡ ptr = omega (arith, s.behind) in
    (
      count_free (push_local class s.block st),
      st2,
      released,
      rw (none_zero, alloc, cached, q') (got ∙ ap (λ (x : ℕ). some (x, st2)) behind),
      same,
      word,
      Kept-same_lists heads counts free_lists os
          (λ a inside. memory a (omega (arith, inside, apart a))) kept,
    )
