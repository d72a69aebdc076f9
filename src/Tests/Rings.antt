-- ===== src/Tests/Rings.antt =====
-- The ring of capacity 4 with one entry in flight.
use aethalloc.Prelude.{
  ◌+◌, ◌^◌, ◌≤◌, ◌<◌, ◌≡◌, ◌≢◌, ◌⊎◌, arith, true, none, some, [], ◌∷◌, ◌++◌, refl, if◌then◌else◌,
  length, take, get_or,
}
use aethalloc.Amo.Command.{RingEntry, default_payload, new, tag_update, zeroed_entry}
use aethalloc.Amo.Ring
use aethalloc.Amo.Ring.{
  Ring, push_check, push_write, push_publish, pop_check, try_push, try_pop, next_index, len,
}
use aethalloc.Amo.Ring.Threads.{Producer, Consumer, System, Step, Reach, start}
use aethalloc.Amo.Ring.Invariant.{Inv}
use aethalloc.Amo.Ring.Spinning.{push, one_pop, push-one_pop}
use aethalloc.Amo.Ring.Fifo.{
  Reach-Inv, popped_prefix_pushed, slots_apart, try_push_lem, try_pop_lem,
}
use aethalloc.Amo.Support.{SupportCore, round, run}
use aethalloc.Amo.Support
use aethalloc.Amo.Support.Laws.{run_endless, run-stop}

abbrev entry : RingEntry
entry = new tag_update default_payload

abbrev checked : System
checked = record (start 4) {
  ring = (push_check 4 (start 4).ring).1;
  producer = if (push_check 4 (start 4).ring).0 then Producer.writing entry else Producer.idle;
}

checked_writing : checked.producer ≡ Producer.writing entry
unfolding push_check next_index Ring.new
checked_writing = refl

abbrev written : System
written = record checked {
  ring = push_write 4 entry checked.ring;
  producer = Producer.publishing entry;
}

abbrev published : System
published = record written {
  ring = push_publish 4 written.ring;
  producer = Producer.idle;
  pushed = written.pushed ++ entry ∷ [];
}

published-Reach : Reach (2 ^ 2) published
published-Reach =
    Reach.next
      (Reach.next (Reach.next Reach.here (Step.check_push entry refl)) (Step.write checked_writing))
      (Step.publish refl)

-- The producer is about to write a second entry, and the consumer is reading the first.
abbrev second : System
second = record published {
  ring = (push_check 4 published.ring).1;
  producer = if (push_check 4 published.ring).0 then Producer.writing entry else Producer.idle;
}

abbrev both : System
both = record second {
  ring = (pop_check 4 second.ring).1;
  consumer = if (pop_check 4 second.ring).0 then Consumer.reading else Consumer.idle;
}

both-Reach : Reach (2 ^ 2) both
both-Reach =
    Reach.next (Reach.next published-Reach (Step.check_push entry refl)) (Step.check_pop refl)

both_writing : both.producer ≡ Producer.writing entry
unfolding push_check push_publish push_write next_index Ring.new
both_writing = refl

both_reading : both.consumer ≡ Consumer.reading
unfolding push_check push_publish push_write pop_check next_index Ring.new
both_reading = refl

popped_prefix_pushed_example :
    (both.popped ≡ take (length both.popped) both.pushed)
    × (length both.popped ≤ length both.pushed)
    × (length both.pushed < length both.popped + 2 ^ 2)
popped_prefix_pushed_example = popped_prefix_pushed 2 both-Reach

slots_apart_example : both.ring.head ≢ both.ring.tail
slots_apart_example = slots_apart 2 both-Reach both_writing both_reading

published-Inv : Inv 2 published
published-Inv = Reach-Inv published-Reach

try_push_lem_example :
    let (out, r) = try_push (2 ^ 2) published.ring entry in
    ((length published.pushed + 1 < length published.popped + 2 ^ 2)
      × (out ≡ some tt)
      × Inv 2 (record published {
        ring = r;
        pushed = published.pushed ++ entry ∷ [];
        producer = Producer.idle;
      }))
    ⊎ ((length published.pushed + 1 ≡ length published.popped + 2 ^ 2)
        × (out ≡ none)
        × Inv 2 (record published { ring = r; producer = Producer.idle }))
try_push_lem_example = try_push_lem entry published-Inv refl

try_pop_lem_example :
    let (out, r) = try_pop (2 ^ 2) published.ring in
    let oldest = get_or published.pushed (length published.popped) zeroed_entry in
    ((length published.popped < length published.pushed)
      × (out ≡ some oldest)
      × Inv 2 (record published {
        ring = r;
        popped = published.popped ++ oldest ∷ [];
        consumer = Consumer.idle;
      }))
    ⊎ ((length published.popped ≡ length published.pushed)
        × (out ≡ none)
        × Inv 2 (record published { ring = r; consumer = Consumer.idle }))
try_pop_lem_example = try_pop_lem published-Inv refl

abbrev core : SupportCore
core = record { ring_buffer = published.ring; running = true }

run_endless_example : run 4 100 core ≡ none
run_endless_example = run_endless 4 100 core refl

run-stop_example : run 4 1 (Support.stop core) ≡ some (Support.stop core)
run-stop_example = run-stop 4 0 core

push-one_pop_example :
    (s' : System) × (push (2 ^ 2) (one_pop (2 ^ 2) ∷ []) published.ring entry ≡ some s'.ring)
    × Inv 2 s'
    × (s'.pushed ≡ published.pushed ++ entry ∷ [])
push-one_pop_example = push-one_pop entry (omega arith) published-Inv refl refl
