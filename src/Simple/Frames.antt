-- ===== src/Simple/Frames.antt =====
-- The free lists where memory changes outside of their blocks.
use aethalloc.Prelude.{ℕ, ◌+◌, ◌*◌, ◌^◌, ◌≤◌, ◌<◌, ◌≡◌, ap₂, arith, List, [], ◌∷◌}
use aethalloc.Global.Memory.{Memory, load64}
use aethalloc.Global.Extents.{block_size, blocks_cover}
use aethalloc.Global.Owners.Headers.{covers_in}
use aethalloc.Simple.{State, head, free_list}
use aethalloc.Simple.Chains.{Seg}
use aethalloc.Simple.Invariant.{Lists, class_list, free_cover, Kept, class_cover-le}

Seg-frame :
    (m m' : Memory) (len end from : ℕ) (xs : List ℕ)
    → 8 ≤ len
    → ((a : ℕ) → 0 < blocks_cover a len xs → m' a ≡ m a)
    → Seg m end from xs
    → Seg m' end from xs
unfolding load64
Seg-frame m m' len end from [] p same seg = seg
Seg-frame m m' len end from (x ∷ xs) p same seg =
    let (at, block, rest) = seg in
    let low = same x (omega (arith, covers_in x x len (omega arith) (omega arith))) in
    let high = same (x + 4) (omega (arith, covers_in (x + 4) x len (omega arith) (omega arith))) in
    let word : load64 m' x ≡ load64 m x = ap₂ (λ (l h : ℕ). l + h * 2 ^ 32) low high in
    (
      at,
      block,
      rw word (Seg-frame m m' len end (load64 m x) xs p (λ a h. same a (omega arith)) rest),
    )

pub with_memory-Kept :
    {st : State} {ls gs : Lists} (m : Memory)
    → ((a : ℕ) → 0 < free_cover a ls gs → m a ≡ st.memory a)
    → Kept st ls gs
    → Kept (record st { memory = m }) ls gs
with_memory-Kept {st} {ls} {gs} m same kept = record {
  local_lists = λ c lt.
      Seg-frame st.memory m (block_size c) 0 (head c st) (class_list ls c) (omega arith)
        (λ a h.
          same a (omega (arith, h, class_cover-le a c ls (omega (arith, kept.locals_length)))))
        (kept.local_lists c lt);
  global_lists = λ c lt.
      Seg-frame st.memory m (block_size c) 0 (free_list c st) (class_list gs c) (omega arith)
        (λ a h.
          same a (omega (arith, h, class_cover-le a c gs (omega (arith, kept.globals_length)))))
        (kept.global_lists c lt);
  counted = kept.counted;
  heads_length = kept.heads_length;
  counts_length = kept.counts_length;
  free_lists_length = kept.free_lists_length;
  locals_length = kept.locals_length;
  globals_length = kept.globals_length;
  answers_ok = kept.answers_ok;
}

-- Two states with the same heads and counts, and the same bytes in the free blocks.
pub Kept-same_lists :
    {st st' : State} {ls gs : Lists}
    → st'.heads ≡ st.heads
    → st'.counts ≡ st.counts
    → st'.free_lists ≡ st.free_lists
    → st'.os ≡ st.os
    → ((a : ℕ) → 0 < free_cover a ls gs → st'.memory a ≡ st.memory a)
    → Kept st ls gs
    → Kept st' ls gs
Kept-same_lists {st} {st'} {ls} {gs} heads counts free_lists os same kept =
    let framed = with_memory-Kept {st = st} {ls = ls} {gs = gs} st'.memory same kept in
    record {
      local_lists = λ c lt. rw heads (framed.local_lists c lt);
      global_lists = λ c lt. rw free_lists (framed.global_lists c lt);
      counted = λ c lt. rw counts (kept.counted c lt);
      heads_length = rw heads kept.heads_length;
      counts_length = rw counts kept.counts_length;
      free_lists_length = rw free_lists kept.free_lists_length;
      locals_length = kept.locals_length;
      globals_length = kept.globals_length;
      answers_ok = rw os kept.answers_ok;
    }
