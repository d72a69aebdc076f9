-- ===== src/Global/Owners.antt =====
-- The heap together with the blocks that its clients hold: what they may do, and what then stays true.
pub mod Headers
pub mod Writes
pub mod Taking
pub mod Returning
pub mod Histories
use aethalloc.Prelude.{
  ◌≢◌, Option, ℕ, ◌+◌, ◌-◌, ◌*◌, ◌^◌, ◌≤◌, ◌<◌, ◌≡◌, max, some, List, [], ◌∷◌, ◌++◌, ◌&&◌, leb,
  if◌then◌else◌, total, All,
}
use aethalloc.SizeClass.{round_up_pow2, size_to_class}
use aethalloc.Magazine.{null}
use aethalloc.Page.{Os, AnswersOk, page_size}
use aethalloc.Global.Memory.{
  Memory, max_cache_size, cache_header_size, large_header_size, read_large_header,
}
use aethalloc.Global.State.{State, start}
use aethalloc.Global.Extents.{covers, block_size, cached, mapped}
use aethalloc.Global.Invariant.{StateOk}
use aethalloc.Global.Alloc.{Layout, IsLayout, alloc, large_pages}
use aethalloc.Global.Dealloc.{dealloc}
use aethalloc.Global.Sizes.{IsSmall}
use aethalloc.Global.Large.{IsLarge}

-- A block that a client holds: its pointer and size, and all the bytes of the block, with the headers.
pub record Live : Type 0 where
  pub ptr : ℕ
  pub size : ℕ
  pub base : ℕ
  pub len : ℕ

-- The block of a pointer that was just handed out.
unfoldable pub taken : Layout → ℕ → State → Live
taken l ptr st =
    if leb l.size max_cache_size && leb l.align 8
    then record {
      ptr = ptr;
      size = l.size;
      base = ptr - cache_header_size;
      len = max (round_up_pow2 l.size) 16 + cache_header_size;
    }
    else record {
      ptr = ptr;
      size = l.size;
      base = (read_large_header st.memory (ptr - large_header_size)).base_ptr;
      len = large_pages l * page_size;
    }

-- The blocks held by clients that the address lies in.
abbrev pub owned : ℕ → List Live → ℕ
owned a = total (λ b. covers a b.base b.len)

-- The headers of the block are in place.
pub data LiveOk (st : State) (b : Live) : Type 0 where
  small_block :
      (class : ℕ) (s : IsSmall b.ptr b.size st)
      → 0 < b.size
      → b.size ≤ max_cache_size
      → size_to_class (max (round_up_pow2 b.size) 16) ≡ some class
      → class < 13
      → b.size ≤ 2 ^ (class + 4)
      → b.base ≡ s.block
      → b.len ≡ block_size class
      → LiveOk st b
  large_block :
      (l : Layout)
      → IsLarge b.base l b.ptr st
      → b.size ≡ l.size
      → large_pages l < 2 ^ 32
      → b.len ≡ large_pages l * page_size
      → LiveOk st b

pub record System : Type 0 where
  pub heap : State
  pub live : List Live

-- What the kernel promises of `mmap`: no two mappings of the process overlap.
abbrev pub MapsApart : State → Type 0
MapsApart st = (a : ℕ) → mapped a st.os.calls ≤ 1

-- One step of a client: a request that is granted or refused, the release of a block that it holds,
-- and a write within the bytes that it asked for.
pub data Act : System → System → Type 0 where
  takes :
      (l : Layout) {st : State} {live : List Live}
      → IsLayout l
      → 0 < l.size
      → large_pages l < 2 ^ 32
      → (alloc l st).0 ≢ null
      → MapsApart (alloc l st).1
      → Act
          (record { heap = st; live = live })
          (record { heap = (alloc l st).1; live = taken l (alloc l st).0 (alloc l st).1 ∷ live })
  is_refused :
      (l : Layout) {st : State} {live : List Live}
      → IsLayout l
      → 0 < l.size
      → large_pages l < 2 ^ 32
      → (alloc l st).0 ≡ null
      → MapsApart (alloc l st).1
      → Act (record { heap = st; live = live }) (record { heap = (alloc l st).1; live = live })
  returns :
      (before : List Live) (b : Live) (after : List Live) {st : State}
      → MapsApart (dealloc b.ptr st)
      → Act
          (record { heap = st; live = before ++ b ∷ after })
          (record { heap = dealloc b.ptr st; live = before ++ after })
  writes :
      (before : List Live) (b : Live) (after : List Live) (m : Memory) {st : State}
      → ((a : ℕ) → covers a b.ptr b.size ≡ 0 → m a ≡ st.memory a)
      → Act
          (record { heap = st; live = before ++ b ∷ after })
          (record { heap = record st { memory = m }; live = before ++ b ∷ after })

pub data Reach : System → Type 0 where
  starts :
      (memory : Memory) (answers : List (Option ℕ))
      → AnswersOk answers
      → Reach (record { heap = start memory (record { answers = answers; calls = [] }); live = [] })
  then_step : {s s' : System} → Reach s → Act s s' → Reach s'

-- Free blocks and blocks held by clients lie apart within the mappings, and every block that a client
-- holds has its headers.
pub record Sound (s : System) : Type 0 where
  pub heap_ok : StateOk s.heap
  pub single : MapsApart s.heap
  pub apart : (a : ℕ) → cached a s.heap + owned a s.live ≤ mapped a s.heap.os.calls
  pub headers : All (LiveOk s.heap) s.live
