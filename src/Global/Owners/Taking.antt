-- ===== src/Global/Owners/Taking.antt =====
-- What a request that is granted takes: a block that was free, or new pages.
use aethalloc.Prelude.{
  ℕ, ◌+◌, ◌-◌, ◌*◌, ◌%◌, ◌^◌, ◌<◌, ◌≡◌, ◌≢◌, refl, subst, ◌∙◌, sym, ap, arith, max, true, false,
  ◌⊎◌, inl, inr, ◌&&◌, leb, ◌==◌, Bool-cases,
}
use aethalloc.SizeClass.{round_up_pow2}
use aethalloc.Magazine.{null}
use aethalloc.Page.{page_size}
use aethalloc.Global.Memory.{Memory, max_cache_size}
use aethalloc.Global.Words.{store64-apart}
use aethalloc.Global.State.{State, maybe_flush, page_alloc}
use aethalloc.Global.Extents.{covers, block_size, mapped}
use aethalloc.Global.Invariant.{StateOk, maybe_flush-Ok, with_metrics-Ok}
use aethalloc.Global.Mapping.{page_alloc-Ok, page_alloc-calls, page_alloc_failed}
use aethalloc.Global.Alloc.{Layout, IsLayout, alloc, alloc_large, place_large, large_pages}
use aethalloc.Global.Sizes.{Grown}
use aethalloc.Global.Large.{IsLarge, place_large-IsLarge, large_pages_hold}
use aethalloc.Global.Served.{Cached, alloc-Cached, place_large-Ok}
use aethalloc.Global.Owners.{Live, LiveOk, taken, small_block, large_block}
use aethalloc.Global.Owners.Headers.{covers_in}
use aethalloc.Global.Owners.Writes.{place_large-outside}

-- The three things that a granted request does: the block has its headers, the bytes of the free
-- blocks and of this one together grow by no more than what is mapped, and nothing outside the block
-- is written.
pub record Taken (b : Live) (st st' : State) : Type 0 where
  pub live_ok : LiveOk st' b
  pub grown : (a : ℕ) → Grown a (covers a b.base b.len) st st'
  pub outside : (a : ℕ) → covers a b.base b.len ≡ 0 → st'.memory a ≡ st.memory a

pub record Untaken (st st' : State) : Type 0 where
  pub grown : (a : ℕ) → Grown a 0 st st'
  pub outside : (a : ℕ) → st'.memory a ≡ st.memory a

abbrev pub Outcome : Layout → State → ℕ × State → Type 0
Outcome l st (ptr, st') =
    StateOk st'
    × (((ptr ≡ null) × Untaken st st') ⊎ ((ptr ≢ null) × Taken (taken l ptr st') st st'))

covers_apart : (a base len i : ℕ) → covers a base len ≡ 0 → i < len → a ≢ base + i
covers_apart a base len i out h e =
    absurd (omega (arith, covers_in a base len (omega arith) (omega arith)))

pub taken-Cached :
    (l : Layout) (ptr len : ℕ) (st : State)
    → Cached l
    → max (round_up_pow2 l.size) 16 ≡ len
    → taken l ptr st ≡ record { ptr = ptr; size = l.size; base = ptr - 16; len = len + 16 }
unfolding taken
taken-Cached l ptr len st fits e =
    let small : (leb l.size max_cache_size && leb l.align 8) ≡ true = ground arith in
    rw (small, e) refl

taken-small :
    {l : Layout} {st : State} → StateOk st → 0 < l.size → Cached l → Outcome l st (alloc l st)
taken-small {l} {st} ok p fits =
    let (class, e, q, lt, holds, served) = alloc-Cached ok p fits in
    let ptr = (alloc l st).0 in
    let st' = (alloc l st).1 in
    let untaken : ptr ≡ null → Untaken st st' = λ nothing. record {
      grown = λ a. elim ((served a).1) [
        | inl (_, _, _, g) ↦ g
        | inr (s, _, _) ↦ absurd (omega (arith, s.behind, nothing))
      ];
      outside = λ a. elim ((served 0).1) [
        | inl (_, _, same, _) ↦ ap (λ (m : Memory). m a) same
        | inr (s, _, _) ↦ absurd (omega (arith, s.behind, nothing))
      ];
    } in
    let block : Live = record {
      ptr = ptr;
      size = l.size;
      base = ptr - 16;
      len = block_size class;
    } in
    let granted : ptr ≢ null → Taken block st st' = λ some_ptr. elim ((served 0).1) [
      | inl (nothing, _, _, _) ↦ absurd (some_ptr nothing)
      | inr (s, written, _) ↦ record {
        live_ok = small_block class s p fits.0 q lt holds (omega (arith, s.behind)) refl;
        grown = λ a. elim ((served a).1) [
          | inl (nothing, _, _, _) ↦ absurd (some_ptr nothing)
          | inr (t, _, g) ↦ let back : t.block ≡ ptr - 16 = omega (arith, t.behind) in rw back at g
        ];
        outside = λ a out.
            let at : s.block ≡ ptr - 16 = omega (arith, s.behind) in
            let first = covers_apart a (ptr - 16) (block_size class) 0 out (omega arith) in
            let second = covers_apart a (ptr - 16) (block_size class) 4 out (omega arith) in
            ap (λ (m : Memory). m a) written
            ∙ store64-apart st.memory s.block l.size a (omega (arith, first))
                (omega (arith, second));
      }
    ] in
    let shape = taken-Cached l ptr (2 ^ (class + 4)) st' fits e in
    (
      (served 0).0,
      elim (Bool-cases (ptr == 0)) [
        | inl nothing ↦ inl (ground arith, untaken (ground arith))
        | inr got ↦
            let some_ptr : ptr ≢ null = ground arith in
            inr (some_ptr, subst (λ b. Taken b st st') (sym shape) (granted some_ptr))
      ],
    )

-- The request takes the path of the large allocations.
abbrev pub Uncached : Layout → Type 0
Uncached l = (max_cache_size < l.size) ⊎ (8 < l.align)

pub taken-Uncached :
    (l : Layout) (base ptr : ℕ) (st : State)
    → Uncached l
    → IsLarge base l ptr st
    → taken l ptr st
      ≡ record { ptr = ptr; size = l.size; base = base; len = large_pages l * page_size }
unfolding taken
taken-Uncached l base ptr st big s =
    let uncached : (leb l.size max_cache_size && leb l.align 8) ≡ false = ground arith in
    rw (uncached, s.large_header) refl

taken-large :
    {l : Layout} {st : State}
    → IsLayout l
    → StateOk st
    → Uncached l
    → large_pages l < 2 ^ 32
    → Outcome l st (alloc_large l st)
unfolding alloc_large maybe_flush place_large page_alloc
taken-large {l} {st} lay ok big few =
    let counted : State = maybe_flush (record st {
      metrics = record (st.metrics) {
        direct_allocs = st.metrics.direct_allocs + 1;
        allocs = st.metrics.allocs + 1;
      };
    }) in
    let pages = large_pages l in
    let some_pages : 0 < pages = omega (arith, large_pages_hold l) in
    let ok0 = maybe_flush-Ok (with_metrics-Ok _ ok) in
    let (ok', got) = page_alloc-Ok pages {st = counted} some_pages ok0 in
    let mapped_st = (page_alloc pages counted).1 in
    elim got [
      | inl (addr, e, aligned, pos, low) ↦
          let large = place_large-IsLarge addr mapped_st lay aligned low in
          let ptr = (place_large l addr mapped_st).0 in
          let st' = (place_large l addr mapped_st).1 in
          let whole : pages * page_size % 2 ^ 64 ≡ pages * page_size = omega arith in
          let calls = page_alloc-calls pages counted addr some_pages e in
          let block : Live = record {
            ptr = ptr;
            size = l.size;
            base = addr;
            len = pages * page_size;
          } in
          let result : Taken block st st' = record {
            live_ok = large_block l large refl few refl;
            grown = λ a. omega (arith, ap (mapped a) calls, ap (covers a addr) whole);
            outside = λ a out.
                place_large-outside l addr mapped_st large.above (omega (arith, large.within)) a
                  out;
          } in
          rw (e, alloc_large)
            (
              place_large-Ok l addr ok',
              inr (
                omega (arith, large.above),
                subst (λ b. Taken b st st') (sym (taken-Uncached l addr ptr st' big large)) result,
              ),
            )
      | inr (e, refused) ↦
          let calls = page_alloc_failed pages counted some_pages ok0 e in
          rw (e, alloc_large)
            (
              ok',
              inl (
                refl,
                record { grown = λ a. omega (arith, ap (mapped a) calls); outside = λ a. refl },
              ),
            )
    ]

-- A request of at least one byte and less than 2^32 pages keeps the invariant, and takes its block
-- or nothing.
pub alloc-Outcome :
    {l : Layout} {st : State}
    → IsLayout l
    → StateOk st
    → 0 < l.size
    → large_pages l < 2 ^ 32
    → Outcome l st (alloc l st)
unfolding alloc
alloc-Outcome {l} {st} lay ok p few =
    elim (Bool-cases (leb l.size max_cache_size && leb l.align 8)) [
      | inl small ↦ taken-small ok p (ground arith)
      | inr big ↦
          let none_zero : (l.size == 0) ≡ false = ground arith in
          rw (none_zero, alloc, big) (taken-large lay ok (ground arith) few)
    ]
