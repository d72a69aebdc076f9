-- ===== src/Amo/Ring/Fifo.antt =====
-- What the two threads can rely on: order, bounds and absence of data races.
use native.Mathlib.Decide.{dec_lt}
use aethalloc.Prelude.{
  ℕ, ◌+◌, ◌%◌, ◌^◌, ◌<◌, ◌≤◌, ◌≡◌, ◌≢◌, ◌⊎◌, refl, subst, ◌∙◌, sym, ap, inl, inr, arith, false,
  none, some, [], ◌∷◌, ◌++◌, Bool-cases, length, get_or, take,
}
use aethalloc.Amo.Command.{RingEntry, zeroed_entry}
use aethalloc.Amo.Ring.{next_index, push_check, try_push, pop_check, pop_read, try_pop}
use aethalloc.Amo.Ring.Index.{next_index-mod, eq_of_mod-eq}
use aethalloc.Amo.Ring.Threads.{
  Producer, Consumer, System, Step, check_push, write, publish, check_pop, read, retire, Reach,
  here, next,
}
use aethalloc.Amo.Ring.Invariant.{Inv, ProducerOk, ConsumerOk, Inv-start}
use aethalloc.Amo.Ring.Producing.{check_push-Inv, write_apart, write-Inv, publish-Inv}
use aethalloc.Amo.Ring.Consuming.{check_pop-Inv, read-Inv, retire-Inv}

pub Step-Inv : {k : ℕ} {s t : System} → Step (2 ^ k) s t → Inv k s → Inv k t
Step-Inv (check_push entry at) inv = check_push-Inv inv entry
Step-Inv (write {entry} at) inv = write-Inv inv entry at
Step-Inv (publish {entry} at) inv = publish-Inv inv entry at
Step-Inv (check_pop at) inv = check_pop-Inv inv
Step-Inv (read at) inv = read-Inv inv at
Step-Inv (retire {entry} at) inv = retire-Inv inv entry at

pub Reach-Inv : {k : ℕ} {s : System} → Reach (2 ^ k) s → Inv k s
Reach-Inv {k} here = Inv-start k
Reach-Inv (next r st) = Step-Inv st (Reach-Inv r)

-- In every reachable state of the two threads, what has been popped is a prefix, in order, of
-- what has been pushed, and at most `CAPACITY - 1` entries are in flight.
pub popped_prefix_pushed :
    (k : ℕ) {s : System}
    → Reach (2 ^ k) s
    → (s.popped ≡ take (length s.popped) s.pushed)
      × (length s.popped ≤ length s.pushed)
      × (length s.pushed < length s.popped + 2 ^ k)
popped_prefix_pushed k r = let inv = Reach-Inv r in (inv.fifo, omega arith, omega arith)

-- In every reachable state of a ring of capacity 2^k, a producer about to write and a consumer about
-- to read are at different slots: the producer never writes the slot that the consumer is reading.
pub slots_apart :
    (k : ℕ) {s : System} {entry : RingEntry}
    → Reach (2 ^ k) s
    → s.producer ≡ Producer.writing entry
    → s.consumer ≡ Consumer.reading
    → s.ring.head ≢ s.ring.tail
slots_apart k {s} {entry} r p c e =
    let inv = Reach-Inv r in
    let free : length s.pushed + 1 < inv.old_tail + 2 ^ k =
      subst (ProducerOk (2 ^ k) (length s.pushed) inv.old_tail s.ring.buffer) p inv.producer_ok in
    let some_held : length s.popped < inv.old_head =
      subst (ConsumerOk (length s.popped) inv.old_head s.pushed) c inv.consumer_ok in
    write_apart inv (length s.popped) free (omega arith) (omega arith) (e ∙ inv.tail_at)

-- A refusal means that the ring is full.
push_refused :
    {k : ℕ} {s : System}
    → Inv k s
    → (push_check (2 ^ k) s.ring).0 ≡ false
    → length s.pushed + 1 ≡ length s.popped + 2 ^ k
unfolding push_check
push_refused {k} {s} inv e =
    let same : next_index (2 ^ k) s.ring.head ≡ s.ring.tail = ground arith in
    let at : (length s.pushed + 1) % 2 ^ k ≡ length s.popped % 2 ^ k =
      sym (ap (next_index (2 ^ k)) inv.head_at ∙ next_index-mod k (length s.pushed))
      ∙ same
      ∙ inv.tail_at in
    elim (dec_lt (length s.pushed + 1) (length s.popped + 2 ^ k)) [
      | yes lt ↦ absurd (
          omega (
            arith,
            eq_of_mod-eq (2 ^ k) (length s.popped) (length s.pushed + 1) (omega arith) lt at,
          ))
      | no full ↦ omega arith
    ]

-- Where the invariant holds and the producer is idle, `try_push` as a whole appends the entry if fewer than `CAPACITY - 1` are in flight, and otherwise
-- returns `None`; the invariant holds either way.
pub try_push_lem :
    {k : ℕ} {s : System} (entry : RingEntry)
    → Inv k s
    → s.producer ≡ Producer.idle
    → let (out, r) = try_push (2 ^ k) s.ring entry in
      ((length s.pushed + 1 < length s.popped + 2 ^ k)
        × (out ≡ some tt)
        × Inv k (record s { ring = r; pushed = s.pushed ++ entry ∷ []; producer = Producer.idle }))
      ⊎ ((length s.pushed + 1 ≡ length s.popped + 2 ^ k)
          × (out ≡ none)
          × Inv k (record s { ring = r; producer = Producer.idle }))
unfolding try_push
try_push_lem {k} {s} entry inv idle = elim (Bool-cases (push_check (2 ^ k) s.ring).0) [
  | inl e ↦
      let checked = rw e at (check_push-Inv inv entry) in
      let room : length s.pushed + 1 < checked.old_tail + 2 ^ k = checked.producer_ok in
      inl (
        omega (arith, room, checked.tail_seen),
        rw e,
        rw e (publish-Inv (write-Inv checked entry refl) entry refl),
      )
  | inr e ↦ inr (push_refused inv e, rw e, rw e (rw e at (check_push-Inv inv entry)))
]

pop_refused :
    {k : ℕ} {s : System}
    → Inv k s
    → (pop_check (2 ^ k) s.ring).0 ≡ false
    → length s.pushed ≡ length s.popped
unfolding pop_check
pop_refused {k} {s} inv e =
    let same : s.ring.tail ≡ s.ring.head = ground arith in
    let at : length s.pushed % 2 ^ k ≡ length s.popped % 2 ^ k =
      sym (sym inv.tail_at ∙ same ∙ inv.head_at) in
    sym (eq_of_mod-eq (2 ^ k) (length s.popped) (length s.pushed) (omega arith) (omega arith) at)

-- Where the invariant holds and the consumer is idle, `try_pop` as a whole returns the oldest entry in flight if there is one, and otherwise `None`; the
-- invariant holds either way.
pub try_pop_lem :
    {k : ℕ} {s : System}
    → Inv k s
    → s.consumer ≡ Consumer.idle
    → let (out, r) = try_pop (2 ^ k) s.ring in
      let entry = get_or s.pushed (length s.popped) zeroed_entry in
      ((length s.popped < length s.pushed)
        × (out ≡ some entry)
        × Inv k (record s { ring = r; popped = s.popped ++ entry ∷ []; consumer = Consumer.idle }))
      ⊎ ((length s.popped ≡ length s.pushed)
          × (out ≡ none)
          × Inv k (record s { ring = r; consumer = Consumer.idle }))
unfolding try_pop
try_pop_lem {k} {s} inv idle = elim (Bool-cases (pop_check (2 ^ k) s.ring).0) [
  | inl e ↦
      let checked = rw e at (check_pop-Inv inv) in
      let some_held : length s.popped < checked.old_head = checked.consumer_ok in
      let after_read = read-Inv checked refl in
      let value = after_read.consumer_ok.1 in
      inl (
        omega (arith, some_held, checked.head_seen),
        rw e (ap some (sym value)),
        rw (e, value) (retire-Inv after_read (pop_read (2 ^ k) (pop_check (2 ^ k) s.ring).1) refl),
      )
  | inr e ↦ inr (sym (pop_refused inv e), rw e, rw e (rw e at (check_pop-Inv inv)))
]
