-- ===== src/Global/Owners/Headers.antt =====
-- When a header stays in place.
use aethalloc.Prelude.{ℕ, ◌+◌, ◌-◌, ◌≤◌, ◌<◌, ◌≡◌, ◌∙◌, arith, List, [], ◌∷◌, All}
use aethalloc.Global.Memory.{load64, read_page_header, read_large_header}
use aethalloc.Global.State.{State}
use aethalloc.Global.Extents.{covers}
use aethalloc.Global.Owners.{Live, LiveOk, owned, small_block, large_block}

pub covers_in : (a base len : ℕ) → base ≤ a → a < base + len → covers a base len ≡ 1
unfolding covers
covers_in a base len lo hi = ground arith

-- The bytes that the client asked for lie within the block.
pub LiveOk-within :
    {st : State} {b : Live}
    → LiveOk st b
    → (b.base + 16 ≤ b.ptr) × (b.ptr + b.size ≤ b.base + b.len)
LiveOk-within (small_block class s p h q lt holds at len) =
    (omega (arith, s.behind), omega (arith, s.behind))
LiveOk-within (large_block l s e few len) = (omega (arith, s.above), omega (arith, s.within))

pub LiveOk-kept :
    {st st' : State} {b : Live}
    → LiveOk st b
    → ((a : ℕ) → covers a b.base b.len ≡ 1 → a < b.ptr → st'.memory a ≡ st.memory a)
    → LiveOk st' b
unfolding load64 read_page_header read_large_header
LiveOk-kept {st} {st'} {b} (small_block class s p h q lt holds at len) same =
    let word : (a : ℕ) → b.base ≤ a → a < b.base + 16 → st'.memory a ≡ st.memory a =
      λ a lo hi. same a (covers_in a b.base b.len lo (omega arith)) (omega (arith, s.behind)) in
    let first = word s.block (omega arith) (omega arith) in
    let second = word (s.block + 4) (omega arith) (omega arith) in
    small_block class
      (record {
        block = s.block;
        behind = s.behind;
        header = rw (first, second) s.header;
        low = first ∙ s.low;
        aligned = s.aligned;
      })
      p h q lt holds at len
LiveOk-kept {st} {st'} {b} (large_block l s e few len) same =
    let word : (a : ℕ) → b.base ≤ a → a < b.ptr → st'.memory a ≡ st.memory a =
      λ a lo hi. same a (covers_in a b.base b.len lo (omega (arith, s.within))) hi in
    let behind = λ (i : ℕ) (h : i < 16).
      word (b.ptr - 16 + i) (omega (arith, s.above)) (omega (arith, s.above)) in
    large_block l
      (record {
        above = s.above;
        within = s.within;
        aligned = s.aligned;
        aligned_16 = s.aligned_16;
        large_header =
            rw
              (
                word (b.ptr - 16) (omega (arith, s.above)) (omega (arith, s.above)),
                behind 8 (omega arith),
                word (b.ptr - 16 + 8 + 4) (omega (arith, s.above)) (omega (arith, s.above)),
              )
              s.large_header;
        page_header =
            rw
              (
                word b.base (omega arith) (omega (arith, s.above)),
                word (b.base + 4) (omega arith) (omega (arith, s.above)),
                word (b.base + 8) (omega arith) (omega (arith, s.above)),
                word (b.base + 8 + 4) (omega arith) (omega (arith, s.above)),
              )
              s.page_header;
      })
      e few len

-- Blocks keep their headers while nobody writes to a byte of theirs.
pub All-LiveOk-kept :
    (st st' : State) (live : List Live)
    → All (LiveOk st) live
    → ((a : ℕ) → 0 < owned a live → st'.memory a ≡ st.memory a)
    → All (LiveOk st') live
All-LiveOk-kept st st' [] ok same = tt
All-LiveOk-kept st st' (b ∷ live) ok same = (
  LiveOk-kept ok.0 (λ a inside below. same a (omega (arith, inside))),
  All-LiveOk-kept st st' live ok.1 (λ a inside. same a (omega (arith, inside))),
)
