-- ===== src/Global/Served.antt =====
-- `alloc` and `dealloc` as wholes: what a caller gets, and that the invariant is kept.
use aethalloc.Prelude.{
  subst, sym, ℕ, ◌+◌, ◌%◌, ◌^◌, ◌≤◌, ◌<◌, ◌≡◌, refl, arith, max, true, false, Option, some, List,
  ◌⊎◌, inl, inr, ◌&&◌, leb, ◌==◌, Bool-cases,
}
use aethalloc.SizeClass.{round_up_pow2, size_to_class}
use aethalloc.SizeClass.Classes.{size_to_class_total, size_to_class-pow}
use aethalloc.Magazine.{null}
use aethalloc.Page.{page_size}
use aethalloc.Global.Memory.{max_cache_size}
use aethalloc.Global.State.{State, maybe_flush, page_alloc}
use aethalloc.Global.Invariant.{StateOk, maybe_flush-Ok, with_metrics-Ok}
use aethalloc.Global.Mapping.{Refused, page_alloc-Ok}
use aethalloc.Global.Alloc.{
  Layout, IsLayout, alloc, alloc_small, alloc_large, place_large, large_pages,
}
use aethalloc.Global.Sizes.{IsSmall, Served}
use aethalloc.Global.Sizes.Hits.{alloc_small-Served}
use aethalloc.Global.Large.{IsLarge, large_pages_hold, place_large-IsLarge}

-- The rounded size of a small request is the power of two of a class, which holds the request.
pub cache_size_lem :
    (size : ℕ)
    → 0 < size
    → size ≤ max_cache_size
    → (c : ℕ) × (max (round_up_pow2 size) 16 ≡ 2 ^ (c + 4))
      × (size_to_class (max (round_up_pow2 size) 16) ≡ some c)
      × (c < 13)
      × (size ≤ 2 ^ (c + 4))
cache_size_lem size p h =
    let (c, _, small, e, holds, _) = size_to_class_total size p h in
    (c, e, rw e (size_to_class-pow c small).1, small, holds)

-- The request takes the path of the small blocks.
abbrev pub Cached : Layout → Type 0
Cached l = (l.size ≤ max_cache_size) × (l.align ≤ 8)

-- A pointer to a large allocation, at the start of a mapping.
pub record IsMapped (l : Layout) (ptr : ℕ) (st : State) : Type 0 where
  pub base : ℕ
  pub page_aligned : base % page_size ≡ 0
  pub low : base < 2 ^ 47
  pub large : IsLarge base l ptr st

-- What `alloc` answers to a request for at least one byte.
abbrev pub Answer : Layout → List (Option ℕ) → ℕ × State → Type 0
Answer l answers (ptr, st) =
    ((ptr ≡ null) × Refused answers) ⊎ ((Cached l × IsSmall ptr l.size st) ⊎ IsMapped l ptr st)

pub place_large-Ok :
    (l : Layout) (base : ℕ) {st : State} → StateOk st → StateOk (place_large l base st).1
unfolding place_large
place_large-Ok l base ok = record {
  alloc_ok = ok.alloc_ok;
  free_ok = ok.free_ok;
  pools_ok = ok.pools_ok;
  answers_ok = ok.answers_ok;
  alloc_length = ok.alloc_length;
  free_length = ok.free_length;
  pools_length = ok.pools_length;
}

alloc_large-Answer :
    {l : Layout} {st : State}
    → IsLayout l
    → StateOk st
    → StateOk (alloc_large l st).1 × Answer l st.os.answers (alloc_large l st)
unfolding alloc_large maybe_flush
alloc_large-Answer {l} {st} lay ok =
    let counted : State = maybe_flush (record st {
      metrics = record (st.metrics) {
        direct_allocs = st.metrics.direct_allocs + 1;
        allocs = st.metrics.allocs + 1;
      };
    }) in
    let (ok', got) =
      page_alloc-Ok (large_pages l) {st = counted} (omega (arith, large_pages_hold l))
        (maybe_flush-Ok (with_metrics-Ok _ ok)) in
    elim got [
      | inl (addr, e, aligned, pos, low) ↦
          rw (e, alloc_large)
            (
              place_large-Ok l addr ok',
              inr (
                  inr (record {
                    base = addr;
                    page_aligned = aligned;
                    low = low;
                    large =
                        place_large-IsLarge addr (page_alloc (large_pages l) counted).1 lay aligned
                          low;
                  })),
            )
      | inr (e, refused) ↦ rw (e, alloc_large) (ok', inl (refl, refused))
    ]

pub alloc-Cached :
    {l : Layout} {st : State}
    → StateOk st
    → 0 < l.size
    → Cached l
    → (class : ℕ) × (max (round_up_pow2 l.size) 16 ≡ 2 ^ (class + 4))
      × (size_to_class (max (round_up_pow2 l.size) 16) ≡ some class)
      × (class < 13)
      × (l.size ≤ 2 ^ (class + 4))
      × ((a : ℕ) → Served a class l.size st st.os.answers (alloc l st))
unfolding alloc
alloc-Cached {l} {st} ok p fits =
    let none_zero : (l.size == 0) ≡ false = ground arith in
    let small : (leb l.size max_cache_size && leb l.align 8) ≡ true = ground arith in
    let (c, e, q, lt, holds) = cache_size_lem l.size p fits.0 in
    (
      c,
      e,
      q,
      lt,
      holds,
      λ a.
          rw (none_zero, alloc, small, q)
            (subst (λ n. Served a c l.size st st.os.answers (alloc_small c n l.size st)) (sym e)
              (alloc_small-Served fits.0 a c lt st st.os.answers refl ok refl (omega arith))),
    )

-- A request for at least one byte, by `alloc`: the invariant is kept, and the answer is no pointer, only where
-- `mmap` refuses, or a pointer to a small block or to a large allocation.
pub alloc-Answer :
    {l : Layout} {st : State}
    → IsLayout l
    → StateOk st
    → 0 < l.size
    → StateOk (alloc l st).1 × Answer l st.os.answers (alloc l st)
unfolding alloc
alloc-Answer {l} {st} lay ok p = elim (Bool-cases (leb l.size max_cache_size && leb l.align 8)) [
  | inl small ↦
      let fits : Cached l = ground arith in
      let (_, _, _, _, _, served) = alloc-Cached ok p fits in
      let (ok', got) = served 0 in
      (
        ok',
        elim got [
          | inl (e, refused, _, _) ↦ inl (e, refused)
          | inr (block, _, _) ↦ inr (inl (fits, block))
        ],
      )
  | inr big ↦
      let none_zero : (l.size == 0) ≡ false = ground arith in
      rw (none_zero, alloc, big) (alloc_large-Answer lay ok)
]
