-- ===== src/Simple/Owners/Answers.antt =====
-- What a client can rely on in every state of a history.
use aethalloc.Prelude.{
  ℕ, ◌+◌, ◌%◌, ◌^◌, ◌≤◌, ◌<◌, ◌≡◌, refl, ap, arith, ◌⊎◌, inl, inr, Bool, ◌&&◌, leb, Bool-cases,
  some, List, ◌∷◌, ◌++◌, All-append_right,
}
use aethalloc.Pool.Chains.{Ends}
use aethalloc.Global.Memory.{Memory, max_cache_size}
use aethalloc.Page.{Os, Call, page_size}
use aethalloc.Simple.Invariant.{Lists, free_cover, Kept}
use aethalloc.Global.Extents.{covers, mapped}
use aethalloc.Global.Alloc.{Layout, IsLayout, large_pages}
use aethalloc.Global.State
use aethalloc.Global.Owners.{Live, LiveOk, taken, owned}
use aethalloc.Global.Owners.Headers.{LiveOk-within}
use aethalloc.Global.Owners.Histories.{owned-append, covers_inner, LiveOk-Aligned16}
use aethalloc.Simple.{State}
use aethalloc.Simple.Alloc.{alloc}
use aethalloc.Simple.Dealloc.{dealloc}
use aethalloc.Simple.Serving.{MapsApart}
use aethalloc.Simple.Owners.{seen, System, Run}
use aethalloc.Simple.Owners.Taking.{alloc-Outcome_simple}
use aethalloc.Simple.Owners.Returning.{Given, to_lists, to_kernel, dealloc-Given}
use aethalloc.Simple.Owners.Histories.{Placed, Run-Orderly}

taken_request :
    (l : Layout) (ptr : ℕ) (st : State.State)
    → ((taken l ptr st).ptr ≡ ptr) × ((taken l ptr st).size ≡ l.size)
unfolding taken
taken_request l ptr st = elim (Bool-cases (leb l.size max_cache_size && leb l.align 8)) [
  | inl small ↦ rw small (refl, refl)
  | inr big ↦ rw big (refl, refl)
]

-- In simple-cache mode, in every state of a history of clients, a request of at least one byte and less
-- than 2^32 pages ends, if in no loop all swaps fail for no reason; and if then no two mappings
-- overlap, the pointer is null, or a multiple of 16 from which on the bytes asked for lie apart from
-- all blocks that clients hold.
pub Run-alloc :
    {s : System} (rounds : ℕ → List Bool) (l : Layout)
    → Run s
    → ((i : ℕ) → Ends (rounds i))
    → IsLayout l
    → 0 < l.size
    → large_pages l < 2 ^ 32
    → (ptr : ℕ) × (st' : State) × (alloc rounds l s.heap ≡ some (ptr, st'))
      × (MapsApart st'
          → (ptr ≡ 0) ⊎ ((ptr % 16 ≡ 0) × ((a : ℕ) → covers a ptr l.size + owned a s.live ≤ 1)))
Run-alloc {s} rounds l run ends lay p few =
    let o = Run-Orderly run in
    let ((ptr, st'), e, outcome) =
      alloc-Outcome_simple rounds {l = l} {st = s.heap} {ls = o.locals} {gs = o.globals} ends
        o.short (λ a. omega (arith, o.apart a)) o.single o.kept lay p few in
    (
      ptr,
      st',
      e,
      λ single. elim (outcome single) [
        | inl (nothing, _) ↦ inl nothing
        | inr (_, t) ↦
            let new = taken l ptr (seen st') in
            let (at, size) = taken_request l ptr (seen st') in
            let (lo, hi) = LiveOk-within t.live_ok in
            let inner =
              λ (a : ℕ). covers_inner a new.base new.len new.ptr new.size (omega arith) hi in
            inr (
              rw at at (LiveOk-Aligned16 t.live_ok),
              λ a.
                  let within : covers a ptr l.size ≤ covers a new.base new.len =
                    rw (at, size) at (inner a) in
                  omega (arith, within, t.moves.grown a, o.apart a, single a),
            )
      ],
    )

-- The state `st'` that the release of the block `b` leads to from `st`, whose free lists are `ls` and
-- `gs`, while clients hold the blocks `others`.
pub record Released (b : Live) (others : List Live) (st : State) (ls gs : Lists) (st' : State)
    : Type 0 where
  pub locals : Lists
  pub globals : Lists
  pub kept : Kept st' locals globals
  pub apart : (a : ℕ) → free_cover a locals globals + owned a others ≤ mapped a st'.os.calls
  pub outside : (a : ℕ) → free_cover a locals globals ≡ 0 → st'.memory a ≡ st.memory a
  pub others_kept : (a : ℕ) → 0 < owned a others → st'.memory a ≡ st.memory a
  pub given :
      ((0 < b.len % page_size)
        × (st'.os ≡ st.os)
        × ((a : ℕ) → free_cover a locals globals ≡ free_cover a ls gs + covers a b.base b.len))
      ⊎ ((b.len % page_size ≡ 0)
          × (st'.os.calls ≡ Call.munmap b.base b.len ∷ st.os.calls)
          × (st'.memory ≡ st.memory)
          × (locals ≡ ls)
          × (globals ≡ gs))

Given-Released :
    (all : List Live) {b : Live} {others : List Live} {st st' : State} {ls gs : Lists}
    → ((a : ℕ) → owned a all ≡ owned a others + covers a b.base b.len)
    → ((a : ℕ) → free_cover a ls gs + owned a all ≤ mapped a st.os.calls)
    → MapsApart st
    → Given b st ls gs st'
    → Released b others st ls gs st'
Given-Released all {b} {others} {st} {st'} {ls} {gs} parts apart single
      (to_lists {ls'} {gs'} f short os no_pages) =
    let calls = λ (a : ℕ). ap (λ (o : Os). mapped a o.calls) os in
    let together : (a : ℕ) → free_cover a ls' gs' ≡ free_cover a ls gs + covers a b.base b.len =
      λ a. omega (arith, f.grown a, f.none_lost a, calls a) in
    record {
      locals = ls';
      globals = gs';
      kept = f.kept;
      apart = λ a. omega (arith, together a, parts a, apart a, calls a);
      outside = λ a none. f.outside a (omega (arith, none));
      others_kept =
          λ a held. f.outside a (omega (arith, held, together a, parts a, apart a, single a));
      given = inl (no_pages, os, together);
    }
Given-Released all {b} {others} {st} {st'} {ls} {gs} parts apart single
      (to_kernel kept pages memory calls) =
    record {
      locals = ls;
      globals = gs;
      kept = kept;
      apart = λ a. omega (arith, parts a, apart a, ap (mapped a) calls);
      outside = λ a none. ap (λ (m : Memory). m a) memory;
      others_kept = λ a held. ap (λ (m : Memory). m a) memory;
      given = inr (pages, calls, memory, refl, refl);
    }

-- In simple-cache mode, in every state of a history of clients, the release of a block that is held
-- ends, if not all swaps fail for no reason. A block that is not whole pages is then in the free lists,
-- each of its bytes once, beside what they held before, and the kernel is not called. A block of whole
-- pages is unmapped, its header with it, and memory and lists are as before. In both cases the lists
-- lie in memory as heads and counts say, free blocks and those that clients still hold lie apart within
-- the mappings, no byte is written outside the free blocks, and none of what clients still hold.
pub Run-dealloc :
    {s : System} (rounds : List Bool) (before : List Live) (b : Live) (after : List Live)
    (run : Run s)
    → s.live ≡ before ++ b ∷ after
    → Ends rounds
    → let o = Run-Orderly run in
      (st' : State) × (dealloc rounds b.ptr s.heap ≡ some st')
      × Released b (before ++ after) s.heap o.locals o.globals st'
Run-dealloc {s} rounds before b after run held ends =
    let o = Run-Orderly run in
    let (live_ok, _) =
      All-append_right (LiveOk (seen s.heap)) before (b ∷ after) (rw held at o.headers) in
    let (placed, _) = All-append_right Placed before (b ∷ after) (rw held at o.placed) in
    let parts : (a : ℕ) → owned a s.live ≡ owned a (before ++ after) + covers a b.base b.len = λ a.
      omega (
        arith,
        owned-append a before (b ∷ after),
        owned-append a before after,
        ap (owned a) held,
      ) in
    let (st', e, given) =
      dealloc-Given rounds {st = s.heap} {b = b} {ls = o.locals} {gs = o.globals} ends live_ok
        placed.0 placed.1 o.short (λ a. omega (arith, o.apart a, o.single a, parts a)) o.kept in
    (st', e, Given-Released s.live parts o.apart o.single given)
