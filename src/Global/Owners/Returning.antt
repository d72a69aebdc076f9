-- ===== src/Global/Owners/Returning.antt =====
-- What the release of a block gives back: to a magazine, or to the kernel.
use aethalloc.Prelude.{
  ℕ, ◌+◌, ◌-◌, ◌*◌, ◌%◌, ◌^◌, ◌≤◌, ◌<◌, ◌≡◌, refl, ◌∙◌, ap, arith, max, false, some, ◌⊎◌, inl, inr,
  ◌&&◌, leb, ltb, ◌==◌, Bool-cases, Option-cases, [], ◌∷◌, total-append, bit_and,
}
use aethalloc.SizeClass.{round_up_pow2, size_to_class}
use aethalloc.Magazine
use aethalloc.Magazine.{Magazine, magazine_capacity, null}
use aethalloc.Magazine.Laws.{contents, contents-new, push_lem}
use aethalloc.Page.{page_size}
use aethalloc.Global.Memory.{load64, read_page_header}
use aethalloc.Global.State.{
  State, MagazineNode, GlobalMagazinePool, free_mag, pool, maybe_flush, page_alloc, page_dealloc,
  alloc_node, node_size, node_align,
}
use aethalloc.Global.Extents.{
  covers, block_size, cached, mapped, magazine_cover, blocks_cover, free_mags_cover, pools_cover,
}
use aethalloc.Global.Invariant.{StateOk, free_mag-Ok}
use aethalloc.Global.Mapping.{page_alloc-Ok, page_alloc-calls, page_alloc_failed}
use aethalloc.Global.Alloc.{Layout, large_pages}
use aethalloc.Global.Dealloc.{
  dealloc, dealloc_small, dealloc_large, unmap_page_header, count_free, retire_magazine,
}
use aethalloc.Global.Sizes.{IsSmall, Grown}
use aethalloc.Global.Large.{IsLarge}
use aethalloc.Global.Requests.{is_large-small, is_cached-small, is_large-large, dealloc-large}
use aethalloc.Global.Releases.{alloc_node-Ok, retire_magazine-Ok}
use aethalloc.Global.Owners.{Live, LiveOk, small_block, large_block}

-- At the address `a` the free blocks have grown by no more than `extra` and what was mapped.
abbrev pub Returned : (a extra : ℕ) (before after : State) → Type 0
Returned a extra before after =
    cached a after + mapped a before.os.calls ≤ cached a before + extra + mapped a after.os.calls

page_alloc-Grown :
    (a pages : ℕ) (st : State) → 0 < pages → StateOk st → Grown a 0 st (page_alloc pages st).1
unfolding page_alloc
page_alloc-Grown a pages st p ok =
    let (_, got) = page_alloc-Ok pages {st = st} p ok in
    elim got [
      | inl (addr, e, _, _, _) ↦ omega (arith, ap (mapped a) (page_alloc-calls pages st addr p e))
      | inr (e, _) ↦ omega (arith, ap (mapped a) (page_alloc_failed pages st p ok e))
    ]

alloc_node-Grown : (a : ℕ) (st : State) → StateOk st → Grown a 0 st (alloc_node st).1
unfolding alloc_node page_alloc
alloc_node-Grown a st ok =
    let aligned = bit_and (st.metadata.offset + node_align - 1) (2 ^ 64 - node_align) in
    elim (Bool-cases (leb (aligned + node_size) 4096)) [
      | inl room ↦ rw (room, alloc_node) (omega arith)
      | inr used_up ↦ elim (Option-cases (page_alloc 1 st).0) [
        | inl e ↦ rw (used_up, alloc_node, e) (page_alloc-Grown a 1 st (omega arith) ok)
        | inr (addr, e) ↦ rw (used_up, alloc_node, e) (page_alloc-Grown a 1 st (omega arith) ok)
      ]
    ]

new_cover : (a class : ℕ) → magazine_cover a class Magazine.new ≡ 0
new_cover a class = ap (blocks_cover a (block_size class)) contents-new

-- The full magazine keeps its blocks where it goes.
retire_magazine-Grown :
    (a class : ℕ) (st : State) → class < 13 → StateOk st → Grown a 0 st (retire_magazine class st)
unfolding retire_magazine Magazine.mem_take
retire_magazine-Grown a class st lt ok =
    let st1 = (alloc_node st).1 in
    let ok1 = alloc_node-Ok ok in
    let grown = alloc_node-Grown a st ok in
    let entry : MagazineNode = record { addr = (alloc_node st).0; magazine = free_mag st1 class } in
    let p : GlobalMagazinePool = record (pool st1 class) { full = entry ∷ (pool st1 class).full } in
    elim (Bool-cases ((alloc_node st).0 == 0)) [
      | inl refused ↦ rw (refused, retire_magazine) grown
      | inr got ↦
          rw (got, retire_magazine)
            (omega (
              arith,
              grown,
              free_mags_cover a class st1 Magazine.new (omega (arith, ok1.free_length)),
              pools_cover a class st1 p (omega (arith, ok1.pools_length)),
              new_cover a class,
            ))
    ]

push_cover :
    (a class block : ℕ) (st : State)
    → StateOk st
    → magazine_cover a class (Magazine.push (free_mag st class) block).1
      ≤ magazine_cover a class (free_mag st class) + covers a block (block_size class)
push_cover a class block st ok =
    let len = block_size class in
    elim (push_lem block (free_mag-Ok class ok).valid) [
      | inl (_, _, e, _) ↦ omega (
        arith,
        ap (blocks_cover a len) e
            ∙ total-append (λ (b : ℕ). covers a b len) (contents (free_mag st class)) (block ∷ []),
      )
      | inr (_, _, e) ↦ omega (arith, ap (magazine_cover a class) e)
    ]

dealloc_small-Returned :
    (a class block : ℕ) (st : State)
    → class < 13
    → StateOk st
    → Returned a (covers a block (block_size class)) st (dealloc_small class block st)
unfolding dealloc_small count_free maybe_flush
dealloc_small-Returned a class block st lt ok =
    let mag = λ (s : State). (Magazine.push (free_mag s class) block).1 in
    elim (Bool-cases ((Magazine.push (free_mag st class) block).0)) [
      | inl room ↦
          rw (room, dealloc_small)
            (omega (
              arith,
              free_mags_cover a class st (mag st) (omega (arith, ok.free_length)),
              push_cover a class block st ok,
            ))
      | inr full ↦
          let st1 = retire_magazine class st in
          let ok1 = retire_magazine-Ok class ok in
          rw (full, dealloc_small)
            (omega (
              arith,
              retire_magazine-Grown a class st lt ok,
              free_mags_cover a class st1 (mag st1) (omega (arith, ok1.free_length)),
              push_cover a class block st1 ok1,
            ))
    ]

small-Returned :
    (a class : ℕ) {ptr size : ℕ} {st : State} (s : IsSmall ptr size st)
    → StateOk st
    → 0 < size
    → size ≤ 65536
    → size_to_class (max (round_up_pow2 size) 16) ≡ some class
    → class < 13
    → Returned a (covers a s.block (block_size class)) st (dealloc ptr st)
unfolding dealloc
small-Returned a class {ptr} {size} {st} s ok p h q lt =
    let not_null : (ptr == 0) ≡ false = ground (arith, s.behind) in
    let back : ptr - 16 ≡ s.block = omega (arith, s.behind) in
    let header : load64 st.memory (ptr - 16) ≡ size = rw back s.header in
    rw (not_null, dealloc, is_large-small s h, is_cached-small s p h, header, q, back)
      (dealloc_small-Returned a class s.block st lt ok)

unmap-cached :
    (a base : ℕ) (st : State) → cached a (count_free (unmap_page_header base st)) ≡ cached a st
unfolding unmap_page_header count_free maybe_flush page_dealloc
unmap-cached a base st =
    let header = read_page_header st.memory base in
    elim (Bool-cases ((header.magic_word == 0xA7E8A110) && ltb 0 header.num_pages)) [
      | inl is_mapped ↦ rw is_mapped refl
      | inr other ↦ rw other refl
    ]

large-cached :
    (a : ℕ) {l : Layout} {base ptr : ℕ} {st : State}
    → IsLarge base l ptr st
    → cached a (dealloc ptr st) ≡ cached a st
unfolding dealloc dealloc_large
large-cached a {ptr = ptr} {st = st} s =
    let not_null : (ptr == 0) ≡ false = ground (arith, s.above) in
    rw (not_null, dealloc, is_large-large s) (unmap-cached a _ st)

-- The release of a block moves its bytes to the free blocks, or unmaps them.
pub dealloc-Returned :
    (a : ℕ) {st : State} {b : Live}
    → StateOk st
    → LiveOk st b
    → let st' = dealloc b.ptr st in
      Returned a (covers a b.base b.len) st st'
      ⊎ ((cached a st' ≡ cached a st)
          × (mapped a st'.os.calls ≡ mapped a st.os.calls - covers a b.base b.len))
dealloc-Returned a {st} {b} ok (small_block class s p h q lt holds at len) =
    inl (rw (at, len) (small-Returned a class s ok p h q lt))
dealloc-Returned a {st} {b} ok (large_block l s e few len) =
    let whole : large_pages l * page_size % 2 ^ 64 ≡ b.len = omega arith in
    inr (
      large-cached a s,
      ap (mapped a) (dealloc-large s few) ∙ omega (arith, ap (covers a b.base) whole),
    )
