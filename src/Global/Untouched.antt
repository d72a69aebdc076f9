-- ===== src/Global/Untouched.antt =====
-- What `dealloc` does to the memory, and what the memory is to the invariant.
use aethalloc.Prelude.{
  ℕ, ◌+◌, ◌-◌, ◌^◌, ◌≡◌, refl, max, inl, inr, ◌&&◌, leb, ltb, ◌==◌, Bool-cases, Option-cases,
  bit_and,
}
use aethalloc.SizeClass.{round_up_pow2, size_to_class}
use aethalloc.Magazine
use aethalloc.Global.Invariant.{StateOk}
use aethalloc.Global.Memory.{Memory, load64, read_page_header}
use aethalloc.Global.State.{
  State, free_mag, maybe_flush, page_alloc, page_dealloc, alloc_node, node_size, node_align,
}
use aethalloc.Global.Dealloc.{
  is_large, is_cached, dealloc, dealloc_large, dealloc_small, dealloc_page_header,
  unmap_page_header, count_free, retire_magazine,
}

alloc_node-memory : (st : State) → (alloc_node st).1.memory ≡ st.memory
unfolding alloc_node page_alloc
alloc_node-memory st =
    let aligned = bit_and (st.metadata.offset + node_align - 1) (2 ^ 64 - node_align) in
    elim (Bool-cases (leb (aligned + node_size) 4096)) [
      | inl room ↦ rw (room, alloc_node) refl
      | inr used_up ↦ elim (Option-cases (page_alloc 1 st).0) [
        | inl e ↦ rw (used_up, alloc_node, e) refl
        | inr (addr, e) ↦ rw (used_up, alloc_node, e) refl
      ]
    ]

retire_magazine-memory : (class : ℕ) (st : State) → (retire_magazine class st).memory ≡ st.memory
unfolding retire_magazine
retire_magazine-memory class st = elim (Bool-cases ((alloc_node st).0 == 0)) [
  | inl e ↦ rw (e, retire_magazine) (alloc_node-memory st)
  | inr e ↦ rw (e, retire_magazine) (alloc_node-memory st)
]

unmap-memory : (base : ℕ) (st : State) → (count_free (unmap_page_header base st)).memory ≡ st.memory
unfolding unmap_page_header count_free maybe_flush page_dealloc
unmap-memory base st =
    let header = read_page_header st.memory base in
    elim (Bool-cases ((header.magic_word == 0xA7E8A110) && ltb 0 header.num_pages)) [
      | inl mapped ↦ rw mapped refl
      | inr other ↦ rw other refl
    ]

dealloc_small-memory :
    (class block : ℕ) (st : State) → (dealloc_small class block st).memory ≡ st.memory
unfolding dealloc_small count_free maybe_flush
dealloc_small-memory class block st =
    elim (Bool-cases ((Magazine.push (free_mag st class) block).0)) [
      | inl room ↦ rw (room, dealloc_small) refl
      | inr full ↦ rw (full, dealloc_small) (retire_magazine-memory class st)
    ]

pub dealloc-memory : (ptr : ℕ) (st : State) → (dealloc ptr st).memory ≡ st.memory
unfolding dealloc dealloc_large dealloc_page_header
dealloc-memory ptr st = elim (Bool-cases (ptr == 0)) [
  | inl e ↦ rw (e, dealloc) refl
  | inr e ↦ elim (Bool-cases (is_large ptr st)) [
    | inl large ↦ rw (e, dealloc, large) (unmap-memory _ st)
    | inr not_large ↦ elim (Bool-cases (is_cached ptr st)) [
      | inl cached ↦
          elim (Option-cases
            (size_to_class (max (round_up_pow2 (load64 st.memory (ptr - 16))) 16))) [
              | inl q ↦ rw (e, dealloc, not_large, cached, q) (unmap-memory _ st)
              | inr (class, q) ↦
                  rw (e, dealloc, not_large, cached, q) (dealloc_small-memory class (ptr - 16) st)
            ]
      | inr not_cached ↦ rw (e, dealloc, not_large, not_cached) (unmap-memory _ st)
    ]
  ]
]

pub with_memory-Ok : {st : State} (m : Memory) → StateOk st → StateOk (record st { memory = m })
with_memory-Ok m ok = record {
  alloc_ok = ok.alloc_ok;
  free_ok = ok.free_ok;
  pools_ok = ok.pools_ok;
  answers_ok = ok.answers_ok;
  alloc_length = ok.alloc_length;
  free_length = ok.free_length;
  pools_length = ok.pools_length;
}
