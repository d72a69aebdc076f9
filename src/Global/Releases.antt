-- ===== src/Global/Releases.antt =====
-- `dealloc` keeps the invariant.
use aethalloc.Prelude.{
  ℕ, ◌+◌, ◌-◌, ◌%◌, ◌^◌, ◌≡◌, arith, max, inl, inr, ◌&&◌, ltb, leb, ◌==◌, Bool-cases, Option-cases,
  bit_and,
}
use aethalloc.SizeClass.{round_up_pow2, size_to_class}
use aethalloc.Magazine
use aethalloc.Magazine.{Magazine, magazine_capacity, null}
use aethalloc.Page
use aethalloc.Global.Memory.{load64, read_page_header}
use aethalloc.Global.State.{
  State, free_mag, page_dealloc, alloc_node, MetadataAllocator, node_size, node_align,
}
use aethalloc.Global.Invariant.{
  Aligned16, StateOk, new-MagazineOk, push-MagazineOk, free_mag-Ok, pool-Ok, maybe_flush-Ok,
  with_metrics-Ok, with_free_mag-Ok, with_pool-Ok,
}
use aethalloc.Global.Mapping.{page_alloc-Ok}
use aethalloc.Global.Dealloc.{
  is_large, is_cached, dealloc, dealloc_large, dealloc_small, dealloc_page_header,
  unmap_page_header, count_free, retire_magazine,
}

pub count_free-Ok : {st : State} → StateOk st → StateOk (count_free st)
unfolding count_free
count_free-Ok ok = maybe_flush-Ok (with_metrics-Ok _ ok)

page_dealloc-Ok : (addr pages : ℕ) {st : State} → StateOk st → StateOk (page_dealloc addr pages st)
unfolding page_dealloc Page.dealloc
page_dealloc-Ok addr pages {st} ok = record {
  alloc_ok = ok.alloc_ok;
  free_ok = ok.free_ok;
  pools_ok = ok.pools_ok;
  answers_ok = elim (Bool-cases (pages == 0)) [
    | inl nothing ↦ rw nothing ok.answers_ok
    | inr some_pages ↦ rw some_pages ok.answers_ok
  ];
  alloc_length = ok.alloc_length;
  free_length = ok.free_length;
  pools_length = ok.pools_length;
}

unmap_page_header-Ok : (base : ℕ) {st : State} → StateOk st → StateOk (unmap_page_header base st)
unfolding unmap_page_header
unmap_page_header-Ok base {st} ok =
    let header = read_page_header st.memory base in
    elim (Bool-cases ((header.magic_word == 0xA7E8A110) && ltb 0 header.num_pages)) [
      | inl mapped ↦ rw mapped (page_dealloc-Ok base header.num_pages ok)
      | inr other ↦ rw other ok
    ]

with_metadata-Ok :
    {st : State} (m : MetadataAllocator) → StateOk st → StateOk (record st { metadata = m })
with_metadata-Ok m ok = record {
  alloc_ok = ok.alloc_ok;
  free_ok = ok.free_ok;
  pools_ok = ok.pools_ok;
  answers_ok = ok.answers_ok;
  alloc_length = ok.alloc_length;
  free_length = ok.free_length;
  pools_length = ok.pools_length;
}

pub alloc_node-Ok : {st : State} → StateOk st → StateOk (alloc_node st).1
unfolding alloc_node
alloc_node-Ok {st} ok =
    let aligned = bit_and (st.metadata.offset + node_align - 1) (2 ^ 64 - node_align) in
    elim (Bool-cases (leb (aligned + node_size) 4096)) [
      | inl room ↦ rw (room, alloc_node) (with_metadata-Ok _ ok)
      | inr used_up ↦
          let (ok', got) = page_alloc-Ok 1 (omega arith) ok in
          elim got [
            | inl (addr, e, _, _, _) ↦ rw (used_up, alloc_node, e) (with_metadata-Ok _ ok')
            | inr (e, _) ↦ rw (used_up, alloc_node, e) ok'
          ]
    ]

pub retire_magazine-Ok : (class : ℕ) {st : State} → StateOk st → StateOk (retire_magazine class st)
unfolding retire_magazine Magazine.mem_take
retire_magazine-Ok class {st} ok =
    let ok' = alloc_node-Ok ok in
    let st' = (alloc_node st).1 in
    elim (Bool-cases ((alloc_node st).0 == 0)) [
      | inl refused ↦ rw (refused, retire_magazine) ok'
      | inr got ↦
          rw (got, retire_magazine)
            (with_pool-Ok class _ (with_free_mag-Ok class ok' new-MagazineOk)
              (free_mag-Ok class ok', pool-Ok class ok'))
    ]

dealloc_small-Ok :
    (class block : ℕ) {st : State}
    → Aligned16 block
    → StateOk st
    → StateOk (dealloc_small class block st)
unfolding dealloc_small
dealloc_small-Ok class block {st} p ok =
    elim (Bool-cases ((Magazine.push (free_mag st class) block).0)) [
      | inl room ↦
          rw (room, dealloc_small)
            (count_free-Ok
              (with_free_mag-Ok class ok (push-MagazineOk block (free_mag-Ok class ok) p)))
      | inr full ↦
          let ok' = retire_magazine-Ok class ok in
          rw (full, dealloc_small)
            (count_free-Ok
              (with_free_mag-Ok class ok' (push-MagazineOk block (free_mag-Ok class ok') p)))
    ]

-- `dealloc` of a pointer that is a multiple of 16 keeps the invariant, whatever the memory holds.
pub dealloc-StateOk : (ptr : ℕ) {st : State} → ptr % 16 ≡ 0 → StateOk st → StateOk (dealloc ptr st)
unfolding dealloc dealloc_large dealloc_page_header
dealloc-StateOk ptr {st} p ok =
    let unmapped = λ (base : ℕ). count_free-Ok (unmap_page_header-Ok base ok) in
    elim (Bool-cases (ptr == 0)) [
      | inl null_ptr ↦ rw (null_ptr, dealloc) ok
      | inr e ↦ elim (Bool-cases (is_large ptr st)) [
        | inl large ↦ rw (e, dealloc, large) (unmapped _)
        | inr not_large ↦ elim (Bool-cases (is_cached ptr st)) [
          | inl cached ↦
              elim (Option-cases
                (size_to_class (max (round_up_pow2 (load64 st.memory (ptr - 16))) 16))) [
                  | inl q ↦ rw (e, dealloc, not_large, cached, q) (unmapped _)
                  | inr (class, q) ↦
                      rw (e, dealloc, not_large, cached, q)
                        (dealloc_small-Ok class (ptr - 16) (omega arith) ok)
                ]
          | inr not_cached ↦ rw (e, dealloc, not_large, not_cached) (unmapped _)
        ]
      ]
    ]
