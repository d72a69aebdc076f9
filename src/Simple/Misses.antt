-- ===== src/Simple/Misses.antt =====
-- A small request that no list serves: one page is cut into blocks, or whole pages are one.
use aethalloc.Prelude.{
  ℕ, suc, ◌+◌, ◌-◌, ◌*◌, ◌/◌, ◌%◌, ◌^◌, ◌≤◌, ◌<◌, ◌≡◌, refl, ◌∙◌, ap, arith, max, Option, List, [],
  ◌∷◌, inl, inr, ltb, ltb→lt, Bool-cases, length, div_ceil, div_ceil_bounds, pow_mono, pow_split,
}
use native.Mathlib.Nat.{div-add-mod, div-le_self}
use aethalloc.Page.{Call, AnswersOk, page_size}
use aethalloc.Global.Memory.{max_cache_size}
use aethalloc.Global.Extents.{block_size, mapped}
use aethalloc.Global.Mapping.{Refused}
use aethalloc.Simple.{State, maybe_flush, page_alloc}
use aethalloc.Simple.Alloc.{hand_out, fresh_pages, fresh_blocks, push_blocks, miss}
use aethalloc.Simple.Chains.{IsBlock}
use aethalloc.Simple.Invariant.{Lists, class_list, free_cover, Kept}
use aethalloc.Simple.Moves.{bytes_of, stays, then_moved, besides, same_bytes, counted_after}
use aethalloc.Simple.Pages.{
  mapped_at, refused, page_alloc-Mapping, page_alloc-Moved, page_alloc_failed-Moved,
  push_blocks-Moved, push_blocks-os, covers_join,
}
use aethalloc.Simple.Serving.{
  MapsApart, Short, Handed, Served, Short-of_class, hand_out-Handed, after-Served,
}

block_size_le : (class : ℕ) → class < 13 → block_size class ≤ 65552
block_size_le class lt = omega (arith, pow_mono (class + 4) 16 (omega arith))

block_size-aligned : (class : ℕ) → block_size class % 16 ≡ 0
block_size-aligned class = omega (arith, pow_split 4 class)

page_blocks : (len : ℕ) → 0 < len → page_size / len * len ≤ page_size
page_blocks len p = omega (arith, div-add-mod page_size len)

page_IsBlock : (addr : ℕ) → addr % 4096 ≡ 0 → 0 < addr → addr < 2 ^ 47 → IsBlock addr
page_IsBlock addr p q r = (q, omega arith, omega arith)

module _ (class size : ℕ) (small : size ≤ max_cache_size) (lt : class < 13) {ls gs : Lists}
    (short : Short ls) where
  fresh_pages-Served :
      {answers : List (Option ℕ)} {st : State}
      → (Refused st.os.answers → Refused answers)
      → ((a : ℕ) → free_cover a ls gs ≤ mapped a st.os.calls)
      → MapsApart (fresh_pages (block_size class) size st).1
      → Kept st ls gs
      → Served class size answers st ls gs (fresh_pages (block_size class) size st)
  unfolding fresh_pages page_alloc maybe_flush hand_out
  fresh_pages-Served {answers} {st} before inside single kept =
      let len = block_size class in
      let pages = max (div_ceil len page_size) 1 in
      let enough = div_ceil_bounds len page_size (omega arith) in
      let le = block_size_le class lt in
      let (got, ok) = page_alloc-Mapping pages st (omega arith) kept.answers_ok in
      elim got [
        | mapped_at addr e aligned pos low calls ↦
            let f =
              page_alloc-Moved pages addr len {st = st} (omega arith) (omega arith) calls ok kept in
            let one : MapsApart (page_alloc pages st).1 = rw (e, fresh_pages) at single in
            rw (e, fresh_pages)
              (inr (
                hand_out-Handed class size addr {st = st}
                  {st1 = maybe_flush (page_alloc pages st).1} small
                  (page_IsBlock addr aligned pos low) inside one short (counted_after _ _ f)))
        | refused e r calls ↦
            rw (e, fresh_pages)
              (inl (record {
                null = refl;
                failed = before r;
                locals = ls;
                globals = gs;
                moves = page_alloc_failed-Moved pages {st = st} calls ok kept;
                short = short;
              }))
      ]

  -- The blocks of a page, the first of which is handed out.
  page_blocks-Handed :
      {st : State} (addr n : ℕ)
      → addr % 4096 ≡ 0
      → 0 < addr
      → addr < 2 ^ 47
      → (page_alloc 1 st).1.os.calls ≡ Call.mmap addr (1 * page_size % 2 ^ 64) ∷ st.os.calls
      → AnswersOk (page_alloc 1 st).1.os.answers
      → 1 < n
      → n * block_size class ≤ page_size
      → n ≤ page_size
      → ((a : ℕ) → free_cover a ls gs ≤ mapped a st.os.calls)
      → MapsApart (push_blocks class addr (block_size class) 1 (n - 1) (page_alloc 1 st).1)
      → Kept st ls gs
      → class_list ls class ≡ []
      → let (ptr, st') =
          hand_out addr size (
            maybe_flush
              (push_blocks class addr (block_size class) 1 (n - 1) (page_alloc 1 st).1)) in
        Handed class size st ls gs ptr st'
  unfolding maybe_flush
  page_blocks-Handed {st} addr n aligned pos low calls ok many fill few inside single kept empty =
      let len = block_size class in
      let st1 = (page_alloc 1 st).1 in
      let st2 = push_blocks class addr len 1 (n - 1) st1 in
      let f =
        page_alloc-Moved 1 addr (n * len) {st = st} (omega arith) (omega arith) calls ok kept in
      let is_block = page_IsBlock addr aligned pos low in
      let e : 1 + (n - 1) ≡ n = omega arith in
      let grouped : len + (n - 1) * len ≡ suc (n - 1) * len = omega arith in
      let back : suc (n - 1) ≡ n = omega arith in
      let all : len + (n - 1) * len ≡ n * len = grouped ∙ ap (λ (k : ℕ). k * len) back in
      let start : addr + 1 * len ≡ addr + len = omega arith in
      let parts = λ (a : ℕ). rw all at (covers_join a addr len ((n - 1) * len)) in
      let same_os : st2.os ≡ st1.os = push_blocks-os (n - 1) class addr len 1 st1 in
      let single1 = λ (a : ℕ). rw same_os at (single a) in
      let (ls', g, elsewhere, longer) =
        push_blocks-Moved (n - 1) class addr 1 {st = st1} (omega arith) (omega arith) pos
          (rw e (omega arith)) (block_size-aligned class) (omega (arith, ap length empty))
          (rw start (λ a. omega (arith, parts a, f.grown a, inside a, single1 a))) f.kept in
      let g' =
        same_bytes (λ a. rw start (omega (arith, parts a))) (λ a. omega arith)
          (besides (bytes_of addr class) g) in
      hand_out-Handed class size addr {st = st} {st1 = maybe_flush st2} small is_block inside single
        (Short-of_class class ls ls' short elsewhere (omega (arith, longer, ap length empty)))
        (counted_after _ _ (then_moved f g'))

  fresh_blocks-Served :
      {st : State}
      → class_list ls class ≡ []
      → ((a : ℕ) → free_cover a ls gs ≤ mapped a st.os.calls)
      → MapsApart (fresh_blocks class (block_size class) size st).1
      → Kept st ls gs
      → Served class size st.os.answers st ls gs (fresh_blocks class (block_size class) size st)
  unfolding fresh_blocks page_alloc maybe_flush hand_out
  fresh_blocks-Served {st} empty inside single kept =
      let len = block_size class in
      let n = page_size / len in
      let (got, ok) = page_alloc-Mapping 1 st (omega arith) kept.answers_ok in
      elim (Bool-cases (ltb 1 n)) [
        | inr few ↦
            let one : MapsApart (fresh_pages len size st).1 = rw (few, fresh_blocks) at single in
            rw (few, fresh_blocks) (fresh_pages-Served {st = st} (λ r. r) inside one kept)
        | inl many ↦ elim got [
          | mapped_at addr e aligned pos low calls ↦
              let one : MapsApart (push_blocks class addr len 1 (n - 1) (page_alloc 1 st).1) =
                rw (many, e, fresh_blocks) at single in
              rw (many, e, fresh_blocks)
                (inr (
                  page_blocks-Handed {st = st} addr n aligned pos low calls ok (ltb→lt 1 n many)
                    (page_blocks len (omega arith)) (div-le_self page_size len) inside one kept
                    empty))
          | refused e r calls ↦
              let st1 = (page_alloc 1 st).1 in
              let one : MapsApart (fresh_pages len size st1).1 =
                rw (many, e, fresh_blocks) at single in
              let f = page_alloc_failed-Moved 1 {st = st} calls ok kept in
              rw (many, e, fresh_blocks)
                (after-Served class size f (
                  fresh_pages-Served {st = st1} (λ r'. r)
                    (λ a. omega (arith, inside a, ap (mapped a) calls)) one f.kept))
        ]
      ]

  pub miss-Served :
      {st : State}
      → class_list ls class ≡ []
      → ((a : ℕ) → free_cover a ls gs ≤ mapped a st.os.calls)
      → MapsApart (miss class (2 ^ (class + 4)) size st).1
      → Kept st ls gs
      → Served class size st.os.answers st ls gs (miss class (2 ^ (class + 4)) size st)
  unfolding miss
  miss-Served {st} empty inside single kept =
      let f = counted_after _ _ (stays kept) in
      after-Served class size f (fresh_blocks-Served empty inside single f.kept)
