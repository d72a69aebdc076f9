-- ===== src/Amo/Ring/Invariant.antt =====
-- What holds of the ring in every reachable state: the indices are those of two counters, each
-- shadow is an old value of its counter, and the slots between them hold what was pushed.
use aethalloc.Prelude.{
  ℕ, ◌+◌, ◌%◌, ◌^◌, ◌<◌, ◌≤◌, ◌≡◌, refl, arith, List, length, get_or, take, length-replicate,
}
use aethalloc.Amo.Command.{RingEntry, zeroed_entry}
use aethalloc.Amo.Ring.{new}
use aethalloc.Amo.Ring.Index.{pow-pos}
use aethalloc.Amo.Ring.Threads.{Producer, Consumer, System, start}

-- A producer past its check has room for one entry more, and has written it before it publishes.
abbrev pub ProducerOk : (cap pushed st : ℕ) → List RingEntry → Producer → Type 0
ProducerOk cap pushed st buffer Producer.idle = Unit {0}
ProducerOk cap pushed st buffer (Producer.writing entry) = pushed + 1 < st + cap
ProducerOk cap pushed st buffer (Producer.publishing entry) =
    (pushed + 1 < st + cap) × (get_or buffer (pushed % cap) zeroed_entry ≡ entry)

abbrev pub ConsumerOk : (popped sh : ℕ) → List RingEntry → Consumer → Type 0
ConsumerOk popped sh pushed Consumer.idle = Unit {0}
ConsumerOk popped sh pushed Consumer.reading = popped < sh
ConsumerOk popped sh pushed (Consumer.retiring entry) =
    (popped < sh) × (get_or pushed popped zeroed_entry ≡ entry)

-- `old_tail` and `old_head` count what the shadows have seen.
pub record Inv (k : ℕ) (s : System) : Type 0 where
  pub old_tail : ℕ
  pub old_head : ℕ
  pub head_at : s.ring.head ≡ length s.pushed % 2 ^ k
  pub tail_at : s.ring.tail ≡ length s.popped % 2 ^ k
  pub shadow_tail_at : s.ring.shadow_tail ≡ old_tail % 2 ^ k
  pub shadow_head_at : s.ring.shadow_head ≡ old_head % 2 ^ k
  pub tail_seen : old_tail ≤ length s.popped
  pub head_seen : old_head ≤ length s.pushed
  pub behind : length s.popped ≤ old_head
  pub room : length s.pushed < old_tail + 2 ^ k
  pub array : length s.ring.buffer ≡ 2 ^ k
  pub held :
      (i : ℕ)
      → length s.popped ≤ i
      → i < length s.pushed
      → get_or s.ring.buffer (i % 2 ^ k) zeroed_entry ≡ get_or s.pushed i zeroed_entry
  pub fifo : s.popped ≡ take (length s.popped) s.pushed
  pub producer_ok : ProducerOk (2 ^ k) (length s.pushed) old_tail s.ring.buffer s.producer
  pub consumer_ok : ConsumerOk (length s.popped) old_head s.pushed s.consumer

pub Inv-start : (k : ℕ) → Inv k (start (2 ^ k))
unfolding new
Inv-start k = record {
  old_tail = 0;
  old_head = 0;
  head_at = omega arith;
  tail_at = omega arith;
  shadow_tail_at = omega arith;
  shadow_head_at = omega arith;
  tail_seen = omega arith;
  head_seen = omega arith;
  behind = omega arith;
  room = omega (arith, pow-pos k);
  array = length-replicate (2 ^ k) zeroed_entry;
  held = λ i lo hi. absurd (omega arith);
  fifo = refl;
  producer_ok = tt;
  consumer_ok = tt;
}
