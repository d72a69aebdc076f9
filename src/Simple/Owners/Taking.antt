-- ===== src/Simple/Owners/Taking.antt =====
-- What a request that is granted takes: a block from a list, or new pages.
use aethalloc.Prelude.{
  ℕ, ◌+◌, ◌-◌, ◌*◌, ◌%◌, ◌^◌, ◌≤◌, ◌<◌, ◌≡◌, ◌≢◌, refl, sym, ◌∙◌, subst, arith, Bool, true, false,
  some, List, ◌⊎◌, inl, inr, ◌&&◌, leb, ◌==◌, Bool-cases,
}
use aethalloc.Pool.Chains.{Ends}
use aethalloc.Page.{page_size}
use aethalloc.Global.Memory.{max_cache_size}
use aethalloc.Global.Extents.{covers, mapped}
use aethalloc.Global.Alloc.{Layout, IsLayout, large_pages}
use aethalloc.Global.Alloc
use aethalloc.Global.Large.{place_large-IsLarge, large_pages_hold}
use aethalloc.Global.Served.{Cached, cache_size_lem}
use aethalloc.Global.Owners.{LiveOk, taken, small_block, large_block}
use aethalloc.Global.Owners.Taking.{taken-Cached, Uncached, taken-Uncached}
use aethalloc.Global.Owners.Writes.{place_large-outside}
use aethalloc.Simple.{State, maybe_flush, page_alloc}
use aethalloc.Simple.Alloc.{alloc, alloc_small, alloc_large, place_large}
use aethalloc.Simple.Invariant.{Lists, free_cover, Kept}
use aethalloc.Simple.Moves.{Moved, nothing, stays, then_moved, counted_after}
use aethalloc.Simple.Pages.{
  mapped_at, refused, page_alloc-Mapping, page_alloc-Moved, page_alloc_failed-Moved,
}
use aethalloc.Simple.Serving.{MapsApart, Short}
use aethalloc.Simple.Requests.{alloc_small-Served}
use aethalloc.Simple.Frames.{with_memory-Kept}
use aethalloc.Simple.Owners.{seen}

-- What an answer is, for the lists before: a block with its headers, which the lists give up or a
-- mapping brings, or null; no word is written but in that block and in free blocks.
pub record Granted (l : Layout) (st : State) (ls gs : Lists) (ptr : ℕ) (st' : State) : Type 0 where
  pub locals : Lists
  pub globals : Lists
  pub short : Short locals
  pub moves :
      let b = taken l ptr (seen st') in
      Moved nothing (λ a. covers a b.base b.len) st ls gs st' locals globals
  pub live_ok : LiveOk (seen st') (taken l ptr (seen st'))
  pub placed : (0 < (taken l ptr (seen st')).base) × ((taken l ptr (seen st')).base < 2 ^ 64)

pub record Nothing (st : State) (ls gs : Lists) (st' : State) : Type 0 where
  pub locals : Lists
  pub globals : Lists
  pub short : Short locals
  pub moves : Moved nothing nothing st ls gs st' locals globals

abbrev pub Outcome : Layout → State → Lists → Lists → ℕ × State → Type 0
Outcome l st ls gs (ptr, st') =
    ((ptr ≡ 0) × Nothing st ls gs st') ⊎ ((ptr ≢ 0) × Granted l st ls gs ptr st')

module _ (rounds : ℕ → List Bool) {l : Layout} {st : State} {ls gs : Lists}
    (ends : (i : ℕ) → Ends (rounds i)) (short : Short ls)
    (inside : (a : ℕ) → free_cover a ls gs ≤ mapped a st.os.calls) (single : MapsApart st)
    (kept : Kept st ls gs) where
  taken-small :
      0 < l.size
      → Cached l
      → (r : ℕ × State) × (alloc rounds l st ≡ some r) × (MapsApart r.1 → Outcome l st ls gs r)
  unfolding alloc
  taken-small p fits =
      let none_zero : (l.size == 0) ≡ false = ground arith in
      let cached : (leb l.size max_cache_size && leb l.align 8) ≡ true = ground arith in
      let (class, e, q, lt, holds) = cache_size_lem l.size p fits.0 in
      let (r, got, served) =
        alloc_small-Served rounds class l.size {st = st} {ls = ls} {gs = gs} ends fits.0 lt short
          inside single kept in
      (
        r,
        rw (none_zero, alloc, cached, q)
            (subst (λ n. alloc_small rounds class n l.size st ≡ some r) (sym e) got),
        λ single'. elim (served single') [
          | inl d ↦ inl (
            d.null,
            record { locals = d.locals; globals = d.globals; short = d.short; moves = d.moves },
          )
          | inr h ↦
              let shape = taken-Cached l r.0 (2 ^ (class + 4)) (seen r.1) fits e in
              let back : r.0 - 16 ≡ h.block = omega (arith, h.behind) in
              inr (
                (λ null. omega (arith, h.behind, null)),
                record {
                  locals = h.locals;
                  globals = h.globals;
                  short = h.short;
                  moves = rw (shape, back) h.moves;
                  live_ok = rw shape (
                      small_block class
                        (record {
                          block = h.block;
                          behind = h.behind;
                          header = h.header;
                          low = h.low;
                          aligned = h.is_block.1;
                        })
                        p fits.0 q lt holds back refl);
                  placed = rw (shape, back) (h.is_block.0, h.is_block.2);
                },
              )
        ],
      )

  -- The two headers are written in the new pages.
  place_large-Granted :
      (addr : ℕ)
      → IsLayout l
      → Uncached l
      → large_pages l < 2 ^ 32
      → addr % 4096 ≡ 0
      → 0 < addr
      → addr < 2 ^ 47
      → {st1 : State}
      → Moved nothing (λ a. covers a addr (large_pages l * page_size)) st ls gs st1 ls gs
      → MapsApart st1
      → let (ptr, st') = place_large l addr st1 in (ptr ≢ 0) × Granted l st ls gs ptr st'
  unfolding place_large Alloc.place_large
  place_large-Granted addr lay big few aligned pos low {st1} f single1 =
      let large = place_large-IsLarge addr (seen st1) lay aligned low in
      let (ptr, st') = place_large l addr st1 in
      let shape = taken-Uncached l addr ptr (seen st') big large in
      let outside = λ (a : ℕ) (h : covers a addr (large_pages l * page_size) ≡ 0).
        place_large-outside l addr (seen st1) large.above (omega (arith, large.within)) a h in
      (
        (λ null. omega (arith, large.above, null)),
        record {
          locals = ls;
          globals = gs;
          short = short;
          moves = rw shape (record {
            kept =
                with_memory-Kept st'.memory
                  (λ a h. outside a (omega (arith, h, f.grown a, inside a, single1 a))) f.kept;
            grown = f.grown;
            none_lost = f.none_lost;
            outside = λ a none. outside a (omega (arith, none)) ∙ f.outside a none;
          });
          live_ok = rw shape (large_block l large refl few refl);
          placed = rw shape (omega arith, omega arith);
        },
      )

  taken-large :
      IsLayout l
      → Uncached l
      → large_pages l < 2 ^ 32
      → MapsApart (alloc_large l st).1
      → Outcome l st ls gs (alloc_large l st)
  unfolding alloc_large page_alloc
  taken-large lay big few single' =
      let counted = maybe_flush (record st {
        metrics = record (st.metrics) {
          direct_allocs = st.metrics.direct_allocs + 1;
          allocs = st.metrics.allocs + 1;
        };
      }) in
      let pages = large_pages l in
      let some_pages : 0 < pages = omega (arith, large_pages_hold l) in
      let f0 = counted_after (counted.metrics) (counted.global_metrics) (stays kept) in
      let (got, ok) = page_alloc-Mapping pages counted some_pages kept.answers_ok in
      elim got [
        | mapped_at addr e aligned pos low calls ↦
            let f = then_moved f0 (
              page_alloc-Moved pages addr (pages * page_size) {st = counted} (omega arith)
                (omega arith) calls ok f0.kept) in
            let one : MapsApart (page_alloc pages counted).1 = rw (e, alloc_large) at single' in
            rw (e, alloc_large)
              (inr (
                place_large-Granted addr lay big few aligned pos low
                  {st1 = (page_alloc pages counted).1} f one))
        | refused e r calls ↦
            rw (e, alloc_large)
              (inl (
                refl,
                record {
                  locals = ls;
                  globals = gs;
                  short = short;
                  moves =
                      then_moved f0 (page_alloc_failed-Moved pages {st = counted} calls ok f0.kept);
                },
              ))
      ]

  -- A request of at least one byte and less than 2^32 pages ends, and takes its block or nothing.
  pub alloc-Outcome_simple :
      IsLayout l
      → 0 < l.size
      → large_pages l < 2 ^ 32
      → (r : ℕ × State) × (alloc rounds l st ≡ some r) × (MapsApart r.1 → Outcome l st ls gs r)
  unfolding alloc
  alloc-Outcome_simple lay p few = elim (Bool-cases (leb l.size max_cache_size && leb l.align 8)) [
    | inl small ↦ taken-small p (ground arith)
    | inr big ↦
        let none_zero : (l.size == 0) ≡ false = ground arith in
        (
          alloc_large l st,
          rw (none_zero, alloc, big) refl,
          λ single'. taken-large lay (ground arith) few single',
        )
  ]
