-- ===== src/Slab/Accounts.antt =====
-- The slots of a slab are accounted for.
use aethalloc.Prelude.{
  ℕ, suc, ◌+◌, ◌-◌, ◌*◌, ◌^◌, ◌≤◌, ◌<◌, ◌≡◌, refl, ap, arith, none, some, List, [], ◌∷◌, ◌⊎◌, inl,
  inr, leb, ◌==◌, Bool-cases, ==_iff, length, Option-cases, get_or, Option-cases, get_or,
}
use aethalloc.Page
use aethalloc.Slab.{
  Slab, alloc, alloc_fresh, alloc_new_page, bump, dealloc, in_pages, max_slab_pages,
}

-- All pages before the last are used up, and each slot taken from a page is allocated or free.
pub record SlabOk (s : Slab) : Type 0 where
  pub few_pages : s.num_pages ≤ max_slab_pages
  pub begun : (0 < s.num_pages) ⊎ (s.next_slot ≡ 0)
  pub in_page : s.next_slot ≤ s.slots_per_page
  pub used : s.allocated + length s.free_slots ≡ (s.num_pages - 1) * s.slots_per_page + s.next_slot

-- `dealloc` of a slab with an allocated slot keeps its accounts.
pub dealloc-SlabOk :
    (ptr : ℕ) {s : Slab}
    → SlabOk s
    → 0 < s.allocated
    → s.allocated < 2 ^ 64
    → SlabOk (dealloc ptr s)
unfolding dealloc
dealloc-SlabOk ptr {s} ok pos fits = elim (Bool-cases (in_pages ptr s.num_pages s.pages)) [
  | inl found ↦ rw found (record {
    few_pages = ok.few_pages;
    begun = ok.begun;
    in_page = ok.in_page;
    used = omega (arith, ok.used);
  })
  | inr lost ↦ rw lost ok
]

next_page : (n k : ℕ) → 0 < n → (n - 1) * k + k ≡ n * k
next_page n k p = let e : n ≡ suc (n - 1) = omega arith in omega (arith, ap (λ (x : ℕ). x * k) e)

alloc_new_page-SlabOk :
    {s : Slab}
    → SlabOk s
    → 0 < s.slots_per_page
    → s.num_pages < max_slab_pages
    → (s.num_pages ≡ 0) ⊎ ((0 < s.num_pages) × (s.next_slot ≡ s.slots_per_page))
    → let (done, s') = alloc_new_page s in
      SlabOk s'
      × ((done ≡ none)
          ⊎ ((done ≡ some tt)
              × (0 < s'.num_pages)
              × (s'.slots_per_page ≡ s.slots_per_page)
              × (s'.next_slot ≡ 0)))
unfolding alloc_new_page
alloc_new_page-SlabOk {s} ok wide few used_up = elim (Option-cases (Page.alloc 1 s.os).0) [
  | inl e ↦
      rw (e, alloc_new_page)
        (
          record {
            few_pages = ok.few_pages;
            begun = ok.begun;
            in_page = ok.in_page;
            used = ok.used;
          },
          inl refl,
        )
  | inr (addr, e) ↦
      let back : s.num_pages + 1 - 1 ≡ s.num_pages = omega arith in
      let total : s.allocated + length s.free_slots ≡ s.num_pages * s.slots_per_page + 0 =
        elim used_up [
          | inl none_yet ↦
              let fresh : s.next_slot ≡ 0 = ground arith in
              omega (
                arith,
                ok.used,
                ap (λ (n : ℕ). (n - 1) * s.slots_per_page) none_yet,
                ap (λ (n : ℕ). n * s.slots_per_page) none_yet,
                fresh,
              )
          | inr (some_page, at_end) ↦
              omega (arith, ok.used, at_end, next_page s.num_pages s.slots_per_page some_page)
        ] in
      rw (e, alloc_new_page)
        (
          record {
            few_pages = omega arith;
            begun = inl (omega arith);
            in_page = omega arith;
            used = rw back total;
          },
          inr (refl, omega arith, refl, refl),
        )
]

bump-SlabOk :
    {s : Slab} → SlabOk s → 0 < s.num_pages → s.next_slot < s.slots_per_page → SlabOk (bump s).1
unfolding bump
bump-SlabOk {s} ok some_page room = elim (Option-cases (get_or s.pages (s.num_pages - 1) none)) [
  | inl e ↦ rw (e, bump) ok
  | inr (page, e) ↦
      rw (e, bump)
        (record {
          few_pages = ok.few_pages;
          begun = inl some_page;
          in_page = omega arith;
          used = omega (arith, ok.used);
        })
]

alloc_fresh-SlabOk :
    {s : Slab} → SlabOk s → 0 < s.slots_per_page → 0 < s.num_pages → SlabOk (alloc_fresh s).1
unfolding alloc_fresh
alloc_fresh-SlabOk {s} ok wide some_page = elim (Bool-cases (leb s.slots_per_page s.next_slot)) [
  | inl full ↦ elim (Bool-cases (leb max_slab_pages s.num_pages)) [
    | inl all ↦ rw (full, alloc_fresh, all) ok
    | inr few ↦
        let at_end : s.next_slot ≡ s.slots_per_page = ground (arith, ok.in_page) in
        let (ok', got) = alloc_new_page-SlabOk ok wide (ground arith) (inr (some_page, at_end)) in
        elim got [
          | inl e ↦ rw (full, alloc_fresh, few, e) ok'
          | inr (e, pages, same, next) ↦
              rw (full, alloc_fresh, few, e) (bump-SlabOk ok' pages (omega (arith, same, next)))
        ]
  ]
  | inr room ↦ rw (room, alloc_fresh) (bump-SlabOk ok some_page (ground arith))
]

-- `alloc` of a slab with room for a slot in a page keeps its accounts.
pub alloc-SlabOk : {s : Slab} → SlabOk s → 0 < s.slots_per_page → SlabOk (alloc s).1
unfolding alloc
alloc-SlabOk {s} ok wide = go s.free_slots refl
  where
    go : (free : List ℕ) → s.free_slots ≡ free → SlabOk (alloc s).1
    go [] e = elim (Bool-cases (s.num_pages == 0)) [
      | inl none_yet ↦
          let (ok', got) =
            alloc_new_page-SlabOk ok wide (ground arith) (inl ((==_iff _ 0).0 none_yet)) in
          elim got [
            | inl q ↦ rw (e, alloc, none_yet, q) ok'
            | inr (q, pages, same, next) ↦
                rw (e, alloc, none_yet, q) (alloc_fresh-SlabOk ok' (omega (arith, same)) pages)
          ]
      | inr begun ↦ rw (e, alloc, begun) (alloc_fresh-SlabOk ok wide (ground arith))
    ]
    go (ptr ∷ rest) e =
        rw (e, alloc)
          (record {
            few_pages = ok.few_pages;
            begun = ok.begun;
            in_page = ok.in_page;
            used = omega (arith, ok.used, ap (λ (xs : List ℕ). length xs) e);
          })
