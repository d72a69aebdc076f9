-- ===== src/Global/Owners/Histories.antt =====
-- The histories of clients of the heap.
use aethalloc.Prelude.{
  ℕ, ◌+◌, ◌%◌, ◌^◌, ◌≤◌, ◌<◌, ◌≡◌, refl, ◌∙◌, ap, sym, arith, inl, inr, List, [], ◌∷◌, ◌++◌, All,
  All-append, All-append_left, All-append_right, total-append, total_from-replicate,
}
use aethalloc.Magazine
use aethalloc.Magazine.Laws.{contents-new}
use aethalloc.Page.{Os}
use aethalloc.Global.Memory.{Memory}
use aethalloc.Global.State.{State, start, new_pool}
use aethalloc.Global.Extents.{
  covers, block_size, blocks_cover, magazine_cover, pool_cover, cached, mapped,
}
use aethalloc.Global.Invariant.{start-Ok}
use aethalloc.Global.Alloc.{Layout, IsLayout, alloc, large_pages}
use aethalloc.Global.Dealloc.{get_alloc_size}
use aethalloc.Global.Requests.{get_alloc_size-small, get_alloc_size-large}
use aethalloc.Global.Releases.{dealloc-StateOk}
use aethalloc.Global.Untouched.{dealloc-memory, with_memory-Ok}
use aethalloc.Global.Owners.{
  Live, LiveOk, taken, small_block, large_block, owned, System, Act, takes, is_refused, returns,
  writes, Reach, starts, then_step, Sound, MapsApart,
}
use aethalloc.Global.Owners.Headers.{LiveOk-within, LiveOk-kept, All-LiveOk-kept}
use aethalloc.Global.Owners.Taking.{alloc-Outcome}
use aethalloc.Global.Owners.Returning.{dealloc-Returned}

cached-start : (a : ℕ) (memory : Memory) (os : Os) → cached a (start memory os) ≡ 0
cached-start a memory os =
    let empty = λ (class : ℕ). ap (blocks_cover a (block_size class)) contents-new in
    omega (
      arith,
      total_from-replicate (magazine_cover a) 0 14 Magazine.new empty,
      total_from-replicate (pool_cover a) 0 13 new_pool (λ class. refl),
    )

pub LiveOk-Aligned16 : {st : State} {b : Live} → LiveOk st b → b.ptr % 16 ≡ 0
LiveOk-Aligned16 (small_block class s p h q lt holds at len) = omega (arith, s.behind, s.aligned)
LiveOk-Aligned16 (large_block l s e few len) = s.aligned_16

pub owned-append : (a : ℕ) (xs ys : List Live) → owned a (xs ++ ys) ≡ owned a xs + owned a ys
owned-append a xs ys = total-append (λ (b : Live). covers a b.base b.len) xs ys

pub covers_inner :
    (a base len b n : ℕ) → base ≤ b → b + n ≤ base + len → covers a b n ≤ covers a base len
unfolding covers
covers_inner a base len b n lo hi = ground arith

pub covers_before : (a base len : ℕ) → a < base → covers a base len ≡ 0
unfolding covers
covers_before a base len below = ground arith

Act-Sound : {s s' : System} → Sound s → Act s s' → Sound s'
Act-Sound sound (takes l {st} {live} lay p few some_ptr single) =
    let (ok, got) = alloc-Outcome lay sound.heap_ok p few in
    elim got [
      | inl (nothing, _) ↦ absurd (some_ptr nothing)
      | inr (_, t) ↦
          let new = taken l (alloc l st).0 (alloc l st).1 in
          let apart : (a : ℕ)
              → cached a (alloc l st).1 + (covers a new.base new.len + owned a live)
                ≤ mapped a (alloc l st).1.os.calls =
            λ a. omega (arith, t.grown a, sound.apart a) in
          record {
            heap_ok = ok;
            single = single;
            apart = apart;
            headers = (
              t.live_ok,
              All-LiveOk-kept _ _ live sound.headers
                  (λ a inside. t.outside a (omega (arith, inside, apart a, single a))),
            );
          }
    ]
Act-Sound sound (is_refused l {st} {live} lay p few nothing single) =
    let (ok, got) = alloc-Outcome lay sound.heap_ok p few in
    elim got [
      | inl (_, t) ↦ record {
        heap_ok = ok;
        single = single;
        apart = λ a. omega (arith, t.grown a, sound.apart a);
        headers = All-LiveOk-kept _ _ live sound.headers (λ a inside. t.outside a);
      }
      | inr (some_ptr, _) ↦ absurd (some_ptr nothing)
    ]
Act-Sound sound (returns before b after {st} single) =
    let kept = All-append_left (LiveOk st) before (b ∷ after) sound.headers in
    let (live_ok, rest) = All-append_right (LiveOk st) before (b ∷ after) sound.headers in
    record {
      heap_ok = dealloc-StateOk b.ptr (LiveOk-Aligned16 live_ok) sound.heap_ok;
      single = single;
      apart = λ a. elim (dealloc-Returned a sound.heap_ok live_ok) [
        | inl moved ↦ omega (
          arith,
          moved,
          sound.apart a,
          owned-append a before (b ∷ after),
          owned-append a before after,
        )
        | inr (same, unmapped) ↦ omega (
          arith,
          same,
          unmapped,
          sound.apart a,
          owned-append a before (b ∷ after),
          owned-append a before after,
        )
      ];
      headers =
          All-LiveOk-kept st _ (before ++ after) (All-append (LiveOk st) before after kept rest)
            (λ a inside. ap (λ (m : Memory). m a) (dealloc-memory b.ptr st));
    }
Act-Sound sound (writes before b after m {st} outside) =
    let kept = All-append_left (LiveOk st) before (b ∷ after) sound.headers in
    let (live_ok, rest) = All-append_right (LiveOk st) before (b ∷ after) sound.headers in
    let (lo, hi) = LiveOk-within live_ok in
    let inner = λ (a : ℕ). covers_inner a b.base b.len b.ptr b.size (omega arith) hi in
    let st' : State = record st { memory = m } in
    let all = λ (a : ℕ). owned-append a before (b ∷ after) in
    record {
      heap_ok = with_memory-Ok m sound.heap_ok;
      single = sound.single;
      apart = sound.apart;
      headers =
          All-append (LiveOk st') before (b ∷ after)
            (All-LiveOk-kept st st' before kept (λ a inside.
              outside a (omega (arith, inside, inner a, all a, sound.apart a, sound.single a))))
            (
              LiveOk-kept live_ok
                  (λ a inside below. outside a (covers_before a b.ptr b.size below)),
              All-LiveOk-kept st st' after rest (λ a inside.
                  outside a (omega (arith, inside, inner a, all a, sound.apart a, sound.single a))),
            );
    }

-- In every state of a history of clients (requests of at least one byte and less than 2^32 pages,
-- releases of blocks that are held, and writes within the bytes asked for, in any order, while no
-- two mappings overlap), the invariant of the heap holds, the free blocks and the blocks that
-- clients hold lie apart within the mappings, and the headers of the blocks that clients hold are
-- in place.
pub Reach-Sound : {s : System} → Reach s → Sound s
Reach-Sound (starts memory answers ok) = record {
  heap_ok = start-Ok memory _ ok;
  single = λ a. omega arith;
  apart = λ a. omega (arith, cached-start a memory (record { answers = answers; calls = [] }));
  headers = tt;
}
Reach-Sound (then_step r step) = Act-Sound (Reach-Sound r) step

-- In every state of a history of clients (requests of at least one byte and less than 2^32 pages,
-- releases of blocks that are held, and writes within the bytes asked for, in any order, while no
-- two mappings overlap), an address lies in at most one of the free blocks and the blocks that
-- clients hold, each block taken with its headers.
pub Reach-apart : {s : System} → Reach s → (a : ℕ) → cached a s.heap + owned a s.live ≤ 1
Reach-apart r a = let sound = Reach-Sound r in omega (arith, sound.apart a, sound.single a)

LiveOk-size : {st : State} {b : Live} → LiveOk st b → get_alloc_size b.ptr st ≡ b.size
LiveOk-size (small_block class s p h q lt holds at len) = get_alloc_size-small s p h
LiveOk-size (large_block l s e few len) = get_alloc_size-large s ∙ sym e

All-map :
    (st : State) (live : List Live)
    → All (LiveOk st) live
    → All (λ b. get_alloc_size b.ptr st ≡ b.size) live
All-map st [] ok = tt
All-map st (b ∷ live) ok = (LiveOk-size ok.0, All-map st live ok.1)

-- In every state of a history of clients (requests of at least one byte and less than 2^32 pages,
-- releases of blocks that are held, and writes within the bytes asked for, in any order, while no
-- two mappings overlap), `get_alloc_size` reads from the pointer of each block that a client holds
-- the size that was asked for.
pub Reach-get_alloc_size :
    {s : System} → Reach s → All (λ b. get_alloc_size b.ptr s.heap ≡ b.size) s.live
Reach-get_alloc_size {s} r = All-map s.heap s.live (Reach-Sound r).headers

-- In every state of a history of clients (requests of at least one byte and less than 2^32 pages,
-- releases of blocks that are held, and writes within the bytes asked for, in any order, while no
-- two mappings overlap), one more such request leaves the words of all blocks that clients hold as
-- they are.
pub Reach-kept :
    {s : System} (l : Layout)
    → Reach s
    → IsLayout l
    → 0 < l.size
    → large_pages l < 2 ^ 32
    → MapsApart (alloc l s.heap).1
    → (a : ℕ) → 0 < owned a s.live
    → (alloc l s.heap).1.memory a ≡ s.heap.memory a
Reach-kept {s} l r lay p few single a held =
    let sound = Reach-Sound r in
    elim ((alloc-Outcome lay sound.heap_ok p few).1) [
      | inl (_, t) ↦ t.outside a
      | inr (_, t) ↦ t.outside a (omega (arith, held, t.grown a, sound.apart a, single a))
    ]
