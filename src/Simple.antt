-- ===== src/Simple.antt =====
-- aethalloc-abi/src/global.rs with the feature magazine-caching off: each thread keeps a free list per
-- size class, and the process one more. The lists are linked through the first word of each block.
pub mod Alloc
pub mod Dealloc
pub mod Chains
pub mod Invariant
pub mod Moves
pub mod Batches
pub mod Pages
pub mod Serving
pub mod Misses
pub mod Requests
pub mod Flushing
pub mod Releases
pub mod Frames
pub mod Owners
pub mod Reuse
use aethalloc.Prelude.{
  ℕ, ◌+◌, ◌-◌, ◌%◌, ◌^◌, suc, zero, Bool, true, false, Option, none, some, List, [], ◌∷◌, ◌&&◌, not,
  ◌==◌, if◌then◌else◌, get_or, set, replicate, ◌>>=◌,
}
use aethalloc.Page
use aethalloc.Page.{Os}
use aethalloc.Global.Memory.{Memory, store64, load64, num_size_classes, cache_header_size}
use aethalloc.Global.Metrics
use aethalloc.Global.Metrics.{Metrics}

-- The thread's `ThreadCache` (heads, counts and metrics), the heads of `GLOBAL_FREE_LISTS`, and what
-- is outside of the allocator.
pub record State : Type 0 where
  pub memory : Memory
  pub os : Os
  pub heads : List ℕ
  pub counts : List ℕ
  pub metrics : Metrics
  pub global_metrics : Metrics
  pub free_lists : List ℕ

abbrev pub start : Memory → Os → State
start memory os = record {
  memory = memory;
  os = os;
  heads = replicate num_size_classes 0;
  counts = replicate num_size_classes 0;
  metrics = Metrics.new;
  global_metrics = Metrics.new;
  free_lists = replicate num_size_classes 0;
}

abbrev pub head : ℕ → State → ℕ
head class st = get_or st.heads class 0

abbrev pub count : ℕ → State → ℕ
count class st = get_or st.counts class 0

abbrev pub free_list : ℕ → State → ℕ
free_list class st = get_or st.free_lists class 0

abbrev pub set_head : (class block : ℕ) → State → State
set_head class block st = record st { heads = set st.heads class block }

abbrev pub set_count : (class n : ℕ) → State → State
set_count class n st = record st { counts = set st.counts class n }

abbrev pub set_free_list : (class block : ℕ) → State → State
set_free_list class block st = record st { free_lists = set st.free_lists class block }

-- A write of the link, or of the size, at the start of a block.
abbrev pub write_word : (block word : ℕ) → State → State
write_word block word st = record st { memory = store64 st.memory block word }

abbrev pub read_word : ℕ → State → ℕ
read_word block st = load64 st.memory block

unfoldable pub maybe_flush : State → State
unfolding Metrics.maybe_flush
maybe_flush st =
    let (m, global) = Metrics.maybe_flush st.metrics st.global_metrics in
    record st { metrics = m; global_metrics = global }

unfoldable pub page_alloc : ℕ → State → Option ℕ × State
page_alloc pages st = let (base, os) = Page.alloc pages st.os in (base, record st { os = os })

unfoldable pub page_dealloc : (addr pages : ℕ) → State → State
page_dealloc addr pages st = record st { os = Page.dealloc addr pages st.os }

-- `compare_exchange_weak` on the head of a global list; it may fail for no reason, which `spurious` says.
unfoldable pub swap_head : (spurious : Bool) → (class old new : ℕ) → State → Bool × State
swap_head spurious class old new st =
    if (free_list class st == old) && not spurious
    then (true, set_free_list class new st)
    else (false, st)

-- The loop of `push_batch` as one thread runs it: the list says of each round whether the swap fails
-- for no reason, and `none` is a loop that has not ended.
unfoldable pub push_batch : List Bool → (class batch_head batch_tail : ℕ) → State → Option State
unfolding swap_head
push_batch [] class batch_head batch_tail st = none
push_batch (spurious ∷ rounds) class batch_head batch_tail st =
    let current = free_list class st in
    let (done, st') =
      swap_head spurious class current batch_head (write_word batch_tail current st) in
    let again = push_batch rounds class batch_head batch_tail st' in
    if done then some st' else again

-- The loop of `pop`; the answer is none for an empty list.
unfoldable pub pop : List Bool → (class : ℕ) → State → Option (Option ℕ × State)
unfolding swap_head
pop [] class st = none
pop (spurious ∷ rounds) class st =
    let current = free_list class st in
    let (done, st') = swap_head spurious class current (read_word current st) st in
    let again = pop rounds class st' in
    if current == 0 then some (none, st) else if done then some (some current, st') else again

-- A block becomes the first of the thread's list.
unfoldable pub push_local : (class block : ℕ) → State → State
push_local class block st =
    set_count class ((count class st + 1) % 2 ^ 64)
      (set_head class block (write_word block (head class st) st))

-- The first block of the thread's list leaves it.
unfoldable pub pop_local : (class : ℕ) → State → State
pop_local class st =
    set_count class ((count class st + 2 ^ 64 - 1) % 2 ^ 64)
      (set_head class (read_word (head class st) st) st)

-- `pop_batch` for at most so many blocks; each call of `pop` has its own rounds. The number of blocks
-- that were moved is answered.
unfoldable pub pop_batch :
    (rounds : ℕ → List Bool) (left : ℕ) (class : ℕ) → State → Option (ℕ × State)
unfolding pop push_local
pop_batch rounds zero class st = some (0, st)
pop_batch rounds (suc left) class st = do
  (taken, st') ← pop (rounds left) class st
  elim taken [
    | none ↦ some (0, st')
    | some block ↦ do
      (moved, st'') ← pop_batch rounds left class (push_local class block st')
      some (suc moved, st'')
  ]
