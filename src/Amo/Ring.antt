-- ===== src/Amo/Ring.antt =====
-- aethalloc-amo/src/ring_buffer.rs: the single-producer single-consumer ring. The two atomic
-- indices and the two shadow indices are fields; the capacity, a const generic, is a parameter.
pub mod Index
pub mod Threads
pub mod Invariant
pub mod Producing
pub mod Consuming
pub mod Fifo
pub mod Length
pub mod Spinning
use aethalloc.Prelude.{
  ℕ, ◌+◌, ◌-◌, ◌%◌, ◌^◌, Bool, true, false, Option, none, some, List, ◌==◌, if◌then◌else◌, get_or,
  set, replicate, bit_and,
}
use aethalloc.Amo.Command.{RingEntry, zeroed_entry}

pub record Ring : Type 0 where
  pub head : ℕ
  pub tail : ℕ
  pub shadow_tail : ℕ
  pub shadow_head : ℕ
  pub buffer : List RingEntry

module _ (capacity : ℕ) where
  unfoldable pub new : Ring
  new = record {
    head = 0;
    tail = 0;
    shadow_tail = 0;
    shadow_head = 0;
    buffer = replicate capacity zeroed_entry;
  }

  -- `(i + 1) & (CAPACITY - 1)`
  unfoldable pub next_index : ℕ → ℕ
  next_index i = bit_and (i + 1) (capacity - 1)

  -- `wrapping_sub` wraps at the width of `usize`.
  unfoldable pub len : Ring → ℕ
  len r = bit_and ((2 ^ 64 + r.head - r.tail) % 2 ^ 64) (capacity - 1)

  unfoldable pub is_empty : Ring → Bool
  is_empty r = len r == 0

  unfoldable pub is_full : Ring → Bool
  is_full r = len r == capacity - 1

  -- `try_push` up to the write: whether there is room, by the shadow or else by the tail itself.
  unfoldable pub push_check : Ring → Bool × Ring
  push_check r =
      if next_index r.head == r.shadow_tail
      then (let r' = record r { shadow_tail = r.tail } in
          if next_index r.head == r.tail then (false, r') else (true, r'))
      else (true, r)

  unfoldable pub push_write : RingEntry → Ring → Ring
  push_write entry r = record r { buffer = set r.buffer r.head entry }

  unfoldable pub push_publish : Ring → Ring
  push_publish r = record r { head = next_index r.head }

  unfoldable pub try_push : Ring → RingEntry → Option (Unit {0}) × Ring
  try_push r entry =
      let (room, r') = push_check r in
      if room then (some tt, push_publish (push_write entry r')) else (none, r')

  -- `try_pop` up to the read.
  unfoldable pub pop_check : Ring → Bool × Ring
  pop_check r =
      if r.tail == r.shadow_head
      then (let r' = record r { shadow_head = r.head } in
          if r.tail == r.head then (false, r') else (true, r'))
      else (true, r)

  unfoldable pub pop_read : Ring → RingEntry
  pop_read r = get_or r.buffer r.tail zeroed_entry

  unfoldable pub pop_publish : Ring → Ring
  pop_publish r = record r { tail = next_index r.tail }

  unfoldable pub try_pop : Ring → Option RingEntry × Ring
  try_pop r =
      let (held, r') = pop_check r in
      if held then (some (pop_read r'), pop_publish r') else (none, r')
