-- ===== src/Amo/Ring/Threads.antt =====
-- The producer and the consumer of a ring, interleaved one shared access at a time. `pushed` and
-- `popped` record what has been handed over; the code does not have them.
use aethalloc.Prelude.{ℕ, ◌≡◌, List, [], ◌∷◌, ◌++◌, if◌then◌else◌}
use aethalloc.Amo.Command.{RingEntry}
use aethalloc.Amo.Ring.{
  Ring, new, push_check, push_write, push_publish, pop_check, pop_read, pop_publish,
}

-- Where a producer stands in `try_push`.
pub data Producer : Type 0 where
  idle : Producer
  writing : RingEntry → Producer
  publishing : RingEntry → Producer

-- Where a consumer stands in `try_pop`.
pub data Consumer : Type 0 where
  idle : Consumer
  reading : Consumer
  retiring : RingEntry → Consumer

pub record System : Type 0 where
  pub ring : Ring
  pub producer : Producer
  pub consumer : Consumer
  pub pushed : List RingEntry
  pub popped : List RingEntry

abbrev pub start : ℕ → System
start capacity = record {
  ring = new capacity;
  producer = Producer.idle;
  consumer = Consumer.idle;
  pushed = [];
  popped = [];
}

pub data Step (capacity : ℕ) : System → System → Type 0 where
  check_push :
      {s : System} (entry : RingEntry)
      → s.producer ≡ Producer.idle
      → Step capacity s (record s {
        ring = (push_check capacity s.ring).1;
        producer = if (push_check capacity s.ring).0 then Producer.writing entry else Producer.idle;
      })
  write :
      {s : System} {entry : RingEntry}
      → s.producer ≡ Producer.writing entry
      → Step capacity s (record s {
        ring = push_write capacity entry s.ring;
        producer = Producer.publishing entry;
      })
  publish :
      {s : System} {entry : RingEntry}
      → s.producer ≡ Producer.publishing entry
      → Step capacity s (record s {
        ring = push_publish capacity s.ring;
        producer = Producer.idle;
        pushed = s.pushed ++ entry ∷ [];
      })
  check_pop :
      {s : System}
      → s.consumer ≡ Consumer.idle
      → Step capacity s (record s {
        ring = (pop_check capacity s.ring).1;
        consumer = if (pop_check capacity s.ring).0 then Consumer.reading else Consumer.idle;
      })
  read :
      {s : System}
      → s.consumer ≡ Consumer.reading
      → Step capacity s (record s { consumer = Consumer.retiring (pop_read capacity s.ring) })
  retire :
      {s : System} {entry : RingEntry}
      → s.consumer ≡ Consumer.retiring entry
      → Step capacity s (record s {
        ring = pop_publish capacity s.ring;
        consumer = Consumer.idle;
        popped = s.popped ++ entry ∷ [];
      })

pub data Reach (capacity : ℕ) : System → Type 0 where
  here : Reach capacity (start capacity)
  next : {s t : System} → Reach capacity s → Step capacity s t → Reach capacity t
