-- ===== src/Global/Reuse.antt =====
-- Where `dealloc` puts a small block.
use aethalloc.Prelude.{
  ℕ, ◌+◌, ◌-◌, ◌^◌, ◌≤◌, ◌<◌, ◌≡◌, refl, ◌∙◌, ap, arith, max, false, some, List, [], ◌∷◌, ◌++◌, ◌⊎◌,
  inl, inr, leb, ◌==◌, Bool-cases, ==_iff, Option-cases, bit_and, get_or, get_or-set_self,
}
use aethalloc.SizeClass.{round_up_pow2, size_to_class}
use aethalloc.Magazine
use aethalloc.Magazine.{Magazine, magazine_capacity, null}
use aethalloc.Magazine.Laws.{contents, push_lem, new-IsValid, contents-new}
use aethalloc.Global.Memory.{load64, cache_header_size, max_cache_size}
use aethalloc.Global.State.{
  State, MagazineNode, GlobalMagazinePool, free_mag, pool, maybe_flush, page_alloc, new_pool,
  alloc_node, node_size, node_align,
}
use aethalloc.Global.Invariant.{StateOk, free_mag-Ok}
use aethalloc.Global.Alloc.{Layout, alloc}
use aethalloc.Global.Sizes.{IsSmall}
use aethalloc.Global.Served.{Cached, alloc-Cached, cache_size_lem}
use aethalloc.Global.Requests.{is_large-small, is_cached-small}
use aethalloc.Global.Releases.{alloc_node-Ok, retire_magazine-Ok}
use aethalloc.Global.Dealloc.{dealloc, dealloc_small, count_free, retire_magazine}

-- The three ways in which a block of a class is taken back.
pub data Released (class block : ℕ) (st st' : State) : Type 0 where
  kept :
      (free_mag st class).count < magazine_capacity
      → contents (free_mag st' class) ≡ contents (free_mag st class) ++ block ∷ []
      → (pool st' class).full ≡ (pool st class).full
      → Released class block st st'
  retired :
      (node : ℕ)
      → (free_mag st class).count ≡ magazine_capacity
      → contents (free_mag st' class) ≡ block ∷ []
      → (pool st' class).full
        ≡ record { addr = node; magazine = free_mag st class } ∷ (pool st class).full
      → Released class block st st'
  lost :
      (free_mag st class).count ≡ magazine_capacity
      → (alloc_node st).0 ≡ 0
      → contents (free_mag st' class) ≡ contents (free_mag st class)
      → (pool st' class).full ≡ (pool st class).full
      → Released class block st st'

-- A node is taken without a change of the magazines and the pools.
alloc_node-mags :
    (st : State)
    → ((alloc_node st).1.free_mags ≡ st.free_mags) × ((alloc_node st).1.pools ≡ st.pools)
unfolding alloc_node page_alloc
alloc_node-mags st =
    let aligned = bit_and (st.metadata.offset + node_align - 1) (2 ^ 64 - node_align) in
    elim (Bool-cases (leb (aligned + node_size) 4096)) [
      | inl room ↦ rw (room, alloc_node) (refl, refl)
      | inr used_up ↦ elim (Option-cases (page_alloc 1 st).0) [
        | inl e ↦ rw (used_up, alloc_node, e) (refl, refl)
        | inr (addr, e) ↦ rw (used_up, alloc_node, e) (refl, refl)
      ]
    ]

contents-push-new : (block : ℕ) → contents (Magazine.push Magazine.new block).1 ≡ block ∷ []
unfolding Magazine.new
contents-push-new block = elim (push_lem block new-IsValid) [
  | inl (room, done, e, _) ↦ e ∙ ap (λ (xs : List ℕ). xs ++ block ∷ []) contents-new
  | inr (full, _, _) ↦ absurd (omega arith)
]

-- Without a node nothing changes; with one the full magazine goes to the pool.
retire_magazine_lem :
    (class : ℕ) {st : State}
    → class < 13
    → StateOk st
    → let st' = retire_magazine class st in
      (((alloc_node st).0 ≡ 0)
        × (free_mag st' class ≡ free_mag st class)
        × (pool st' class ≡ pool st class))
      ⊎ ((node : ℕ) × (free_mag st' class ≡ Magazine.new)
          × ((pool st' class).full
              ≡ record { addr = node; magazine = free_mag st class } ∷ (pool st class).full))
unfolding retire_magazine Magazine.mem_take
retire_magazine_lem class {st} lt ok =
    let (e, q) = alloc_node-mags st in
    let st1 = (alloc_node st).1 in
    let entry : Magazine → MagazineNode =
      λ (m : Magazine). record { addr = (alloc_node st).0; magazine = m } in
    elim (Bool-cases ((alloc_node st).0 == 0)) [
      | inl refused ↦
          rw (refused, retire_magazine)
            (inl (
              (==_iff _ _).0 refused,
              ap (λ (ms : List Magazine). get_or ms class Magazine.new) e,
              ap (λ (ps : List GlobalMagazinePool). get_or ps class new_pool) q,
            ))
      | inr got ↦
          rw (got, retire_magazine)
            (inr (
              (alloc_node st).0,
              get_or-set_self st1.free_mags class Magazine.new Magazine.new
                  (omega (arith, (alloc_node-Ok ok).free_length)),
              ap (λ (p : GlobalMagazinePool). p.full)
                    (get_or-set_self st1.pools class _ new_pool
                      (omega (arith, (alloc_node-Ok ok).pools_length)))
                  ∙ ap
                      (λ (ms : List Magazine).
                        entry (get_or ms class Magazine.new) ∷ (pool st1 class).full)
                      e
                  ∙ ap
                      (λ (ps : List GlobalMagazinePool).
                        entry (free_mag st class) ∷ (get_or ps class new_pool).full)
                      q,
            ))
    ]

dealloc_small-Released :
    (class block : ℕ) {st : State}
    → class < 13
    → StateOk st
    → Released class block st (dealloc_small class block st)
unfolding dealloc_small count_free maybe_flush
dealloc_small-Released class block {st} lt ok = elim (push_lem block (free_mag-Ok class ok).valid) [
  | inl (room, done, e, _) ↦
      let q =
        get_or-set_self st.free_mags class (Magazine.push (free_mag st class) block).1 Magazine.new
          (omega (arith, ok.free_length)) in
      rw (done, dealloc_small) (kept room (ap contents q ∙ e) refl)
  | inr (full, done, e) ↦
      let st1 = retire_magazine class st in
      let q =
        get_or-set_self st1.free_mags class (Magazine.push (free_mag st1 class) block).1
          Magazine.new (omega (arith, (retire_magazine-Ok class ok).free_length)) in
      rw (done, dealloc_small)
        (elim (retire_magazine_lem class lt ok) [
          | inl (refused, same, pools) ↦
              lost full refused
                (ap contents q
                  ∙ ap (λ (m : Magazine). contents (Magazine.push m block).1) same
                  ∙ ap contents e)
                (ap (λ (p : GlobalMagazinePool). p.full) pools)
          | inr (node, fresh, pools) ↦
              retired node full
                (ap contents q
                  ∙ ap (λ (m : Magazine). contents (Magazine.push m block).1) fresh
                  ∙ contents-push-new block)
                pools
        ])
]

dealloc-small :
    {ptr size : ℕ} {st : State}
    → IsSmall ptr size st
    → StateOk st
    → 0 < size
    → size ≤ max_cache_size
    → (class : ℕ) × (size_to_class (max (round_up_pow2 size) 16) ≡ some class)
      × Released class (ptr - cache_header_size) st (dealloc ptr st)
unfolding dealloc
dealloc-small {ptr} {size} {st} s ok p h =
    let (c, e, q, lt, _) = cache_size_lem size p h in
    let not_null : (ptr == 0) ≡ false = ground (arith, s.behind) in
    let back : ptr - 16 ≡ s.block = omega (arith, s.behind) in
    let header : load64 st.memory (ptr - 16) ≡ size = rw back s.header in
    (
      c,
      q,
      rw (not_null, dealloc, is_large-small s h, is_cached-small s p h, header, q)
          (dealloc_small-Released c (ptr - cache_header_size) lt ok),
    )

-- `dealloc` of the pointer that `alloc` has answered to a cached request of at least one byte takes
-- its block back: on the magazine of its class, or on an emptied one while the full one goes to the
-- pool, or, where the magazine is full and no node is left, not at all.
pub dealloc-alloc_small :
    {l : Layout} {st : State}
    → StateOk st
    → 0 < l.size
    → Cached l
    → let (ptr, st') = alloc l st in
      (ptr ≡ null)
      ⊎ ((class : ℕ) × (size_to_class (max (round_up_pow2 l.size) 16) ≡ some class)
          × Released class (ptr - cache_header_size) st' (dealloc ptr st'))
dealloc-alloc_small {l} ok p fits =
    let (_, _, _, _, _, served) = alloc-Cached ok p fits in
    let (ok', got) = served 0 in
    elim got [ inl (e, _, _, _) ↦ inl e | inr (s, _, _) ↦ inr (dealloc-small s ok' p fits.0) ]
