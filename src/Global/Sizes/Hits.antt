-- ===== src/Global/Sizes/Hits.antt =====
-- A small request that a magazine serves: the local ones, or one of the pool.
use aethalloc.Prelude.{
  ℕ, subst, sym, total, ap, All-append_left, All-append_right, ◌+◌, ◌^◌, ◌≤◌, ◌<◌, ◌≡◌, refl, ◌∙◌,
  arith, Option, none, some, List, [], ◌∷◌, ◌⊎◌, inl, inr, Bool-cases, All,
}
use aethalloc.Magazine
use aethalloc.Magazine.{Magazine}
use aethalloc.Magazine.Laws.{contents, pop_lem}
use aethalloc.Global.Memory.{max_cache_size}
use aethalloc.Global.State.{State, MagazineNode, GlobalMagazinePool, alloc_mag, free_mag, pool}
use aethalloc.Global.Extents.{
  covers, block_size, blocks_cover, magazine_cover, pool_cover, alloc_mags_cover, free_mags_cover,
  pools_cover, top_cover,
}
use aethalloc.Global.Invariant.{
  Aligned16, MagazineOk, StateOk, alloc_mag-Ok, free_mag-Ok, pool-Ok, with_alloc_mag-Ok,
  with_pool-Ok, with_free_mag-Ok,
}
use aethalloc.Global.Alloc.{from_pool, from_free, alloc_small}
use aethalloc.Global.Sizes.{Served, Grown, hit-Served}
use aethalloc.Global.Sizes.Misses.{miss-Served}

-- A good magazine gives its top block, or has none.
popped :
    (a class : ℕ) {m : Magazine}
    → MagazineOk m
    → let (out, left) = Magazine.pop m in
      MagazineOk left
      × (((ptr : ℕ) × (out ≡ some ptr)
            × Aligned16 ptr
            × (magazine_cover a class m
                ≡ magazine_cover a class left + covers a ptr (block_size class)))
          ⊎ ((out ≡ none) × (magazine_cover a class left ≡ 0)))
popped a class {m} ok = elim (pop_lem ok.valid) [
  | inl (ptr, out, e, valid) ↦
      let rest = contents (Magazine.pop m).1 in
      let split = subst (All Aligned16) e ok.aligned in
      (
        record { valid = valid; aligned = All-append_left Aligned16 rest (ptr ∷ []) split },
        inl (
          ptr,
          out,
          (All-append_right Aligned16 rest (ptr ∷ []) split).0,
          top_cover a class rest m ptr e,
        ),
      )
  | inr (held, out, e) ↦ (
    subst MagazineOk (sym e) ok,
    inr (out, ap (magazine_cover a class) e ∙ ap (blocks_cover a (block_size class)) held),
  )
]

module _ {size : ℕ} (small : size ≤ max_cache_size) (a class : ℕ) (lt : class < 13)
    (before : State) where
  from_pool-Served :
      (answers : List (Option ℕ)) {st : State}
      → st.os.answers ≡ answers
      → StateOk st
      → st.memory ≡ before.memory
      → Grown a 0 before st
      → Served a class size before answers (from_pool class (2 ^ (class + 4)) size st)
  unfolding from_pool
  from_pool-Served answers {st} known ok same grown =
      go (pool st class).full (pool-Ok class ok) refl
    where
      go :
          (full : List MagazineNode)
          → All (λ (n : MagazineNode). MagazineOk n.magazine) full
          → (pool st class).full ≡ full
          → Served a class size before answers (from_pool class (2 ^ (class + 4)) size st)
      go [] good e =
          rw (e, from_pool) (miss-Served small a class lt before answers known ok same grown)
      go (node ∷ rest) good e =
          let (left, got) = popped a class good.0 in
          let used : MagazineNode = record node {
            magazine = Magazine.clear (alloc_mag st class);
          } in
          let swapped : GlobalMagazinePool = record {
            full = rest;
            empty = used ∷ (pool st class).empty;
          } in
          let ok' = with_pool-Ok class swapped (with_alloc_mag-Ok class ok left) good.1 in
          let mag = (Magazine.pop node.magazine).1 in
          let taken = alloc_mags_cover a class st mag (omega (arith, ok.alloc_length)) in
          let moved = pools_cover a class st swapped (omega (arith, ok.pools_length)) in
          let held : pool_cover a class (pool st class)
              ≡ magazine_cover a class node.magazine + pool_cover a class swapped =
            ap (total (λ (n : MagazineNode). magazine_cover a class n.magazine)) e in
          elim got [
            | inl (ptr, out, aligned, top) ↦
                rw (e, from_pool, out)
                  (hit-Served small a class before answers ptr aligned ok' same
                    (omega (arith, taken, moved)))
            | inr (out, nothing) ↦
                rw (e, from_pool, out)
                  (miss-Served small a class lt before answers known ok' same
                    (omega (arith, taken, moved)))
          ]

  from_free-Served :
      (answers : List (Option ℕ)) {st : State}
      → st.os.answers ≡ answers
      → StateOk st
      → st.memory ≡ before.memory
      → Grown a 0 before st
      → Served a class size before answers (from_free class (2 ^ (class + 4)) size st)
  unfolding from_free
  from_free-Served answers {st} known ok same grown =
      elim (Bool-cases (Magazine.is_empty (free_mag st class))) [
        | inl none_freed ↦ rw none_freed (from_pool-Served answers known ok same grown)
        | inr freed ↦
            let (left, got) = popped a class (free_mag-Ok class ok) in
            let ok' =
              with_free_mag-Ok class (with_alloc_mag-Ok class ok left) (alloc_mag-Ok class ok) in
            let mag = (Magazine.pop (free_mag st class)).1 in
            let taken = alloc_mags_cover a class st mag (omega (arith, ok.alloc_length)) in
            let moved =
              free_mags_cover a class st (alloc_mag st class) (omega (arith, ok.free_length)) in
            elim got [
              | inl (ptr, out, aligned, top) ↦
                  rw (freed, from_free, out)
                    (hit-Served small a class before answers ptr aligned ok' same
                      (omega (arith, taken, moved)))
              | inr (out, nothing) ↦
                  rw (freed, from_free, out)
                    (from_pool-Served answers known ok' same (omega (arith, taken, moved)))
            ]
      ]

  -- On the path of the small blocks the answer is no pointer, or one behind a 16-byte aligned header
  -- that holds the size, of a block that was free or that was mapped. The invariant is kept.
  pub alloc_small-Served :
      (answers : List (Option ℕ)) {st : State}
      → st.os.answers ≡ answers
      → StateOk st
      → st.memory ≡ before.memory
      → Grown a 0 before st
      → Served a class size before answers (alloc_small class (2 ^ (class + 4)) size st)
  unfolding alloc_small
  alloc_small-Served answers {st} known ok same grown =
      let (left, got) = popped a class (alloc_mag-Ok class ok) in
      let mag = (Magazine.pop (alloc_mag st class)).1 in
      let taken = alloc_mags_cover a class st mag (omega (arith, ok.alloc_length)) in
      elim got [
        | inl (ptr, out, aligned, top) ↦
            rw (out, alloc_small)
              (hit-Served small a class before answers ptr aligned (with_alloc_mag-Ok class ok left)
                same (omega (arith, taken)))
        | inr (out, nothing) ↦ rw (out, alloc_small) (from_free-Served answers known ok same grown)
      ]
