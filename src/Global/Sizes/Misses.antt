-- ===== src/Global/Sizes/Misses.antt =====
-- A small request that no free block serves: one page is cut into blocks, or whole pages are one.
use aethalloc.Prelude.{
  ltb→lt, pow_split, ℕ, suc, ◌+◌, ◌-◌, ◌*◌, ◌/◌, ◌%◌, ◌^◌, ◌≤◌, ◌<◌, ◌≡◌, refl, ◌∙◌, ap, subst,
  arith, max, min, Option, List, inl, inr, ltb, Bool-cases, div_ceil, div_ceil_bounds, pow_mono,
  total-append,
}
use native.Mathlib.Nat.{mul-le-mul_right, div-add-mod}
use aethalloc.Magazine
use aethalloc.Magazine.{null, magazine_capacity}
use aethalloc.Magazine.Laws.{contents, carve, bulk_init_lem}
use aethalloc.Page.{page_size}
use aethalloc.Global.Memory.{max_cache_size}
use aethalloc.Global.State.{State, alloc_mag, maybe_flush, page_alloc}
use aethalloc.Global.Extents.{
  covers, block_size, blocks_cover, magazine_cover, mapped, covers_split, carve_cover,
  alloc_mags_cover,
}
use aethalloc.Global.Invariant.{
  Aligned16, StateOk, bulk_init-MagazineOk, alloc_mag-Ok, maybe_flush-Ok, with_metrics-Ok,
  with_alloc_mag-Ok,
}
use aethalloc.Global.Mapping.{page_alloc-Ok, page_alloc-calls, page_alloc_failed, Refused}
use aethalloc.Global.Alloc.{fresh_pages, fresh_blocks, miss}
use aethalloc.Global.Sizes.{Served, Grown, hand_out-Served}

block_size_le : (class : ℕ) → class < 13 → block_size class ≤ 65552
block_size_le class lt = omega (arith, pow_mono (class + 4) 16 (omega arith))

block_size-Aligned16 : (class : ℕ) → Aligned16 (block_size class)
block_size-Aligned16 class = omega (arith, pow_split 4 class)

-- The blocks of a page, the first one counted apart.
page_blocks : (len : ℕ) → 1 < page_size / len → len + (page_size / len - 1) * len ≤ page_size
page_blocks len many =
    let n = page_size / len in
    let e : len + (n - 1) * len ≡ suc (n - 1) * len = omega arith in
    let f : suc (n - 1) ≡ n = omega arith in
    omega (arith, e ∙ ap (λ (k : ℕ). k * len) f, div-add-mod page_size len)

-- A block at the start of a mapping of enough pages.
pages_cover :
    (a addr len pages : ℕ)
    → len ≤ pages * page_size
    → pages * page_size < 2 ^ 64
    → covers a addr len ≤ covers a addr (pages * page_size % 2 ^ 64)
pages_cover a addr len pages h fits =
    omega (arith, covers_split a addr len 0 (pages * page_size % 2 ^ 64) (omega arith))

-- What `bulk_init` adds to a magazine lies in the bytes from its base on.
bulk_init_cover :
    (a class base n : ℕ) (st : State)
    → StateOk st
    → magazine_cover a class (Magazine.bulk_init (alloc_mag st class) base (block_size class) n)
      ≤ magazine_cover a class (alloc_mag st class) + covers a base (n * block_size class)
bulk_init_cover a class base n st ok =
    let len = block_size class in
    let m = alloc_mag st class in
    let k = min n (magazine_capacity - m.count) in
    let (valid, e) = bulk_init_lem base len n (alloc_mag-Ok class ok).valid in
    let below : k ≤ n = omega arith in
    let room =
      covers_split a base (k * len) 0 (n * len) (omega (arith, mul-le-mul_right len below)) in
    let start : base + 0 * len ≡ base = omega arith in
    omega (
      arith,
      room,
      ap (blocks_cover a len) e
          ∙ total-append (λ (b : ℕ). covers a b len) (contents m) (carve base len 0 k),
      rw start at (carve_cover k a base len 0),
    )

module _ {size : ℕ} (small : size ≤ max_cache_size) (a class : ℕ) (lt : class < 13)
    (before : State) where
  fresh_pages-Served :
      (answers : List (Option ℕ)) {st : State}
      → (Refused st.os.answers → Refused answers)
      → StateOk st
      → st.memory ≡ before.memory
      → Grown a 0 before st
      → Served a class size before answers (fresh_pages (block_size class) size st)
  unfolding fresh_pages page_alloc maybe_flush
  fresh_pages-Served answers {st} same_answers ok same grown =
      let len = block_size class in
      let pages = max (div_ceil len page_size) 1 in
      let enough = div_ceil_bounds len page_size (omega arith) in
      let le = block_size_le class lt in
      let (ok', got) = page_alloc-Ok pages {st = st} (omega arith) ok in
      elim got [
        | inl (addr, e, aligned, pos, low) ↦
            rw (e, fresh_pages)
              (hand_out-Served small a class before answers addr (omega arith) (maybe_flush-Ok ok')
                same
                (omega (
                  arith,
                  ap (mapped a) (page_alloc-calls pages st addr (omega arith) e),
                  pages_cover a addr len pages (omega arith) (omega arith),
                )))
        | inr (e, refused) ↦
            let kept = page_alloc_failed pages st (omega arith) ok e in
            rw (e, fresh_pages)
              (ok', inl (refl, same_answers refused, same, omega (arith, ap (mapped a) kept)))
      ]

  fresh_blocks-Served :
      (answers : List (Option ℕ)) {st : State}
      → st.os.answers ≡ answers
      → StateOk st
      → st.memory ≡ before.memory
      → Grown a 0 before st
      → Served a class size before answers (fresh_blocks class (block_size class) size st)
  unfolding fresh_blocks page_alloc maybe_flush
  fresh_blocks-Served answers {st} known ok same grown =
      let len = block_size class in
      let n = page_size / len in
      let aligned16 = block_size-Aligned16 class in
      elim (Bool-cases (ltb 1 n)) [
        | inl many ↦
            let (ok', got) = page_alloc-Ok 1 {st = st} (omega arith) ok in
            let st' = (page_alloc 1 st).1 in
            elim got [
              | inl (addr, e, aligned, pos, low) ↦
                  let filled =
                    bulk_init-MagazineOk (addr + len) len (n - 1) (alloc_mag-Ok class ok')
                      (omega (arith, aligned16)) aligned16 in
                  let mag = Magazine.bulk_init (alloc_mag st' class) (addr + len) len (n - 1) in
                  rw (many, e, fresh_blocks)
                    (hand_out-Served small a class before answers addr (omega arith)
                      (maybe_flush-Ok (with_alloc_mag-Ok class ok' filled)) same
                      (omega (
                        arith,
                        ap (mapped a) (page_alloc-calls 1 st addr (omega arith) e),
                        alloc_mags_cover a class st' mag (omega (arith, ok'.alloc_length)),
                        bulk_init_cover a class (addr + len) (n - 1) st' ok',
                        covers_split a addr len ((n - 1) * len) page_size
                            (page_blocks len (ltb→lt 1 n many)),
                      )))
              | inr (e, refused) ↦
                  let kept = page_alloc_failed 1 st (omega arith) ok e in
                  rw (many, e, fresh_blocks)
                    (fresh_pages-Served answers {st = st'} (λ _. subst Refused known refused) ok'
                      same (omega (arith, ap (mapped a) kept)))
            ]
        | inr few ↦
            rw few
              (fresh_pages-Served answers (λ refused. subst Refused known refused) ok same grown)
      ]

  pub miss-Served :
      (answers : List (Option ℕ)) {st : State}
      → st.os.answers ≡ answers
      → StateOk st
      → st.memory ≡ before.memory
      → Grown a 0 before st
      → Served a class size before answers (miss class (2 ^ (class + 4)) size st)
  unfolding miss
  miss-Served answers {st} known ok same grown =
      fresh_blocks-Served answers known (with_metrics-Ok _ ok) same grown
