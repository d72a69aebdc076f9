-- ===== src/Simple/Owners.antt =====
-- The heap of simple-cache mode together with the blocks that its clients hold.
pub mod Taking
pub mod Returning
pub mod Histories
pub mod Answers
use aethalloc.Prelude.{
  ℕ, ◌+◌, ◌-◌, ◌^◌, ◌≤◌, ◌<◌, ◌≡◌, ◌≢◌, Bool, Option, some, List, [], ◌∷◌, ◌++◌, All,
}
use aethalloc.Pool.Chains.{Ends}
use aethalloc.Page.{Os, AnswersOk}
use aethalloc.Global.Memory.{Memory}
use aethalloc.Global.State
use aethalloc.Global.Extents.{covers, mapped}
use aethalloc.Global.Alloc.{Layout, IsLayout, large_pages}
use aethalloc.Global.Owners.{Live, LiveOk, taken, owned}
use aethalloc.Simple.{State, start}
use aethalloc.Simple.Alloc.{alloc}
use aethalloc.Simple.Dealloc.{dealloc}
use aethalloc.Simple.Invariant.{Lists, free_cover, Kept}
use aethalloc.Simple.Serving.{MapsApart, Short}

-- The same memory in a heap of the other mode, whose headers are the same.
abbrev pub seen : State → State.State
seen st = State.start st.memory st.os

pub record System : Type 0 where
  pub heap : State
  pub live : List Live

-- One step of a client: a request that is granted or refused, the release of a block that it holds, and
-- a write within the bytes that it asked for. In no loop all swaps fail for no reason.
pub data Act : System → System → Type 0 where
  takes :
      (l : Layout) (rounds : ℕ → List Bool) {st st' : State} {ptr : ℕ} {live : List Live}
      → IsLayout l
      → 0 < l.size
      → large_pages l < 2 ^ 32
      → ((i : ℕ) → Ends (rounds i))
      → alloc rounds l st ≡ some (ptr, st')
      → ptr ≢ 0
      → MapsApart st'
      → Act
          (record { heap = st; live = live })
          (record { heap = st'; live = taken l ptr (seen st') ∷ live })
  is_refused :
      (l : Layout) (rounds : ℕ → List Bool) {st st' : State} {live : List Live}
      → IsLayout l
      → 0 < l.size
      → large_pages l < 2 ^ 32
      → ((i : ℕ) → Ends (rounds i))
      → alloc rounds l st ≡ some (0, st')
      → MapsApart st'
      → Act (record { heap = st; live = live }) (record { heap = st'; live = live })
  returns :
      (before : List Live) (b : Live) (after : List Live) (rounds : List Bool) {st st' : State}
      → Ends rounds
      → dealloc rounds b.ptr st ≡ some st'
      → MapsApart st'
      → Act
          (record { heap = st; live = before ++ b ∷ after })
          (record { heap = st'; live = before ++ after })
  writes :
      (before : List Live) (b : Live) (after : List Live) (m : Memory) {st : State}
      → ((a : ℕ) → covers a b.ptr b.size ≡ 0 → m a ≡ st.memory a)
      → Act
          (record { heap = st; live = before ++ b ∷ after })
          (record { heap = record st { memory = m }; live = before ++ b ∷ after })

pub data Run : System → Type 0 where
  starts :
      (memory : Memory) (answers : List (Option ℕ))
      → AnswersOk answers
      → Run (record { heap = start memory (record { answers = answers; calls = [] }); live = [] })
  then_step : {s s' : System} → Run s → Act s s' → Run s'

-- The free lists lie in memory as the heads and the counts say, no list of the thread has reached the
-- length at which it is flushed, free blocks and blocks held by clients lie apart within the
-- mappings, and every block that a client holds has its headers and a 64-bit address.
pub record Orderly (s : System) : Type 0 where
  pub locals : Lists
  pub globals : Lists
  pub kept : Kept s.heap locals globals
  pub short : Short locals
  pub single : MapsApart s.heap
  pub apart : (a : ℕ) → free_cover a locals globals + owned a s.live ≤ mapped a s.heap.os.calls
  pub headers : All (LiveOk (seen s.heap)) s.live
  pub placed : All (λ b. (0 < b.base) × (b.base < 2 ^ 64)) s.live
