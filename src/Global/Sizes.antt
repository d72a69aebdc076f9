-- ===== src/Global/Sizes.antt =====
-- The path of the small blocks in `alloc`, as the header of a block and the bytes of all free blocks
-- show it.
pub mod Misses
pub mod Hits
use aethalloc.Prelude.{
  ℕ, ◌+◌, ◌*◌, ◌%◌, ◌^◌, ◌≤◌, ◌<◌, ◌≡◌, refl, ◌∙◌, arith, Option, List, ◌⊎◌, inl, inr,
}
use aethalloc.Magazine.{null}
use aethalloc.Global.Memory.{max_cache_size, cache_header_size, load64, store64}
use aethalloc.Global.Words.{load64-store64, store64-low}
use aethalloc.Global.State.{State, maybe_flush}
use aethalloc.Global.Extents.{covers, block_size, cached, mapped}
use aethalloc.Global.Invariant.{Aligned16, StateOk, maybe_flush-Ok, with_metrics-Ok}
use aethalloc.Global.Mapping.{Refused}
use aethalloc.Global.Alloc.{hand_out, hit}

-- A pointer to a small block, as the memory shows it.
pub record IsSmall (ptr size : ℕ) (st : State) : Type 0 where
  pub block : ℕ
  pub behind : ptr ≡ block + cache_header_size
  pub header : load64 st.memory block ≡ size
  pub low : st.memory block ≡ size
  pub aligned : Aligned16 block

-- At the address `a` the free blocks, with `extra` more, have grown by no more than what was mapped.
abbrev pub Grown : (a extra : ℕ) (before after : State) → Type 0
Grown a extra before after =
    cached a after + extra + mapped a before.os.calls ≤ cached a before + mapped a after.os.calls

-- The null pointer is answered only where `mmap` has failed, on the answers before the call. A block
-- that is handed out is written to at its header only.
abbrev pub Served : (a class size : ℕ) (before : State) → List (Option ℕ) → ℕ × State → Type 0
Served a class size before answers (ptr, st) =
    StateOk st
    × (((ptr ≡ null) × Refused answers × (st.memory ≡ before.memory) × Grown a 0 before st)
        ⊎ ((s : IsSmall ptr size st) × (st.memory ≡ store64 before.memory s.block size)
            × Grown a (covers a s.block (block_size class)) before st))

module _ {size : ℕ} (small : size ≤ max_cache_size) (a class : ℕ) (before : State) where
  pub hand_out-Served :
      (answers : List (Option ℕ)) (block : ℕ) {st : State}
      → Aligned16 block
      → StateOk st
      → st.memory ≡ before.memory
      → Grown a (covers a block (block_size class)) before st
      → Served a class size before answers (hand_out block size st)
  unfolding hand_out
  hand_out-Served answers block {st} p ok same grown = (
    record {
      alloc_ok = ok.alloc_ok;
      free_ok = ok.free_ok;
      pools_ok = ok.pools_ok;
      answers_ok = ok.answers_ok;
      alloc_length = ok.alloc_length;
      free_length = ok.free_length;
      pools_length = ok.pools_length;
    },
    inr (
      record {
        block = block;
        behind = refl;
        header = load64-store64 st.memory block size (omega arith);
        low = store64-low st.memory block size ∙ omega arith;
        aligned = p;
      },
      rw same refl,
      grown,
    ),
  )

  pub hit-Served :
      (answers : List (Option ℕ)) (block : ℕ) {st : State}
      → Aligned16 block
      → StateOk st
      → st.memory ≡ before.memory
      → Grown a (covers a block (block_size class)) before st
      → Served a class size before answers (hit block size st)
  unfolding hit maybe_flush
  hit-Served answers block {st} p ok same grown =
      hand_out-Served answers block p (maybe_flush-Ok (with_metrics-Ok _ ok)) same grown
