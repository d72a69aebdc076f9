-- ===== src/Amo/Ring/Consuming.antt =====
-- The steps of the consumer keep the invariant of the ring.
use aethalloc.Prelude.{
  ℕ, suc, ◌+◌, ◌%◌, ◌^◌, ◌<◌, ◌≤◌, ◌≡◌, subst, ◌∙◌, sym, ap, inl, inr, arith, false, [], ◌∷◌, ◌++◌,
  ◌==◌, if◌then◌else◌, Bool-cases, length, get_or, length-append, take-suc,
}
use aethalloc.Amo.Command.{RingEntry, zeroed_entry}
use aethalloc.Amo.Ring.{next_index, pop_check, pop_read, pop_publish}
use aethalloc.Amo.Ring.Index.{next_index-mod}
use aethalloc.Amo.Ring.Threads.{Consumer, System}
use native.Mathlib.Decide.{dec_lt}
use aethalloc.Amo.Ring.Invariant.{Inv, ConsumerOk}

module _ {k : ℕ} {s : System} (inv : Inv k s) where
  open inv use {
    old_tail, old_head, head_at, tail_at, shadow_tail_at, shadow_head_at, tail_seen, head_seen,
    behind, room, array, held, fifo, producer_ok, consumer_ok,
  }

  pop_room :
      (c : ℕ)
      → length s.popped ≤ c
      → c ≤ length s.pushed
      → (s.ring.tail == c % 2 ^ k) ≡ false
      → length s.popped < c
  pop_room c lo hi e = elim (dec_lt (length s.popped) c) [
    | yes lt ↦ lt
    | no at_end ↦
        let same : length s.popped ≡ c = omega arith in
        let f : s.ring.tail ≡ c % 2 ^ k = tail_at ∙ ap (λ n. n % 2 ^ k) same in
        absurd (ground (arith, f))
  ]

  pub check_pop-Inv : Inv k (record s {
    ring = (pop_check (2 ^ k) s.ring).1;
    consumer = if (pop_check (2 ^ k) s.ring).0 then Consumer.reading else Consumer.idle;
  })
  unfolding pop_check
  check_pop-Inv = elim (Bool-cases (s.ring.tail == s.ring.shadow_head)) [
    | inl e ↦ elim (Bool-cases (s.ring.tail == s.ring.head)) [
      | inl f ↦
          rw (e, f)
            (record {
              old_tail = old_tail;
              old_head = length s.pushed;
              head_at = head_at;
              tail_at = tail_at;
              shadow_tail_at = shadow_tail_at;
              shadow_head_at = head_at;
              tail_seen = tail_seen;
              head_seen = omega arith;
              behind = omega arith;
              room = room;
              array = array;
              held = held;
              fifo = fifo;
              producer_ok = producer_ok;
              consumer_ok = tt;
            })
      | inr f ↦
          rw (e, f)
            (record {
              old_tail = old_tail;
              old_head = length s.pushed;
              head_at = head_at;
              tail_at = tail_at;
              shadow_tail_at = shadow_tail_at;
              shadow_head_at = head_at;
              tail_seen = tail_seen;
              head_seen = omega arith;
              behind = omega arith;
              room = room;
              array = array;
              held = held;
              fifo = fifo;
              producer_ok = producer_ok;
              consumer_ok =
                  pop_room (length s.pushed) (omega arith) (omega arith) (rw head_at at f);
            })
    ]
    | inr e ↦ rw e (record {
      old_tail = old_tail;
      old_head = old_head;
      head_at = head_at;
      tail_at = tail_at;
      shadow_tail_at = shadow_tail_at;
      shadow_head_at = shadow_head_at;
      tail_seen = tail_seen;
      head_seen = head_seen;
      behind = behind;
      room = room;
      array = array;
      held = held;
      fifo = fifo;
      producer_ok = producer_ok;
      consumer_ok = pop_room old_head behind head_seen (rw shadow_head_at at e);
    })
  ]

  pub read-Inv :
      s.consumer ≡ Consumer.reading
      → Inv k (record s { consumer = Consumer.retiring (pop_read (2 ^ k) s.ring) })
  unfolding pop_read
  read-Inv at =
      let ok : length s.popped < old_head =
        subst (ConsumerOk (length s.popped) old_head s.pushed) at consumer_ok in
      record {
        old_tail = old_tail;
        old_head = old_head;
        head_at = head_at;
        tail_at = tail_at;
        shadow_tail_at = shadow_tail_at;
        shadow_head_at = shadow_head_at;
        tail_seen = tail_seen;
        head_seen = head_seen;
        behind = behind;
        room = room;
        array = array;
        held = held;
        fifo = fifo;
        producer_ok = producer_ok;
        consumer_ok = (
          ok,
          sym (
              ap (λ i. get_or s.ring.buffer i zeroed_entry) tail_at
              ∙ held (length s.popped) (omega arith) (omega arith)),
        );
      }

  pub retire-Inv :
      (entry : RingEntry)
      → s.consumer ≡ Consumer.retiring entry
      → Inv k (record s {
        ring = pop_publish (2 ^ k) s.ring;
        consumer = Consumer.idle;
        popped = s.popped ++ entry ∷ [];
      })
  unfolding pop_publish
  retire-Inv entry at =
      let ok : (length s.popped < old_head)
          × (get_or s.pushed (length s.popped) zeroed_entry ≡ entry) =
        subst (ConsumerOk (length s.popped) old_head s.pushed) at consumer_ok in
      let longer : length (s.popped ++ entry ∷ []) ≡ length s.popped + 1 =
        length-append s.popped (entry ∷ []) in
      let longer' : length (s.popped ++ entry ∷ []) ≡ suc (length s.popped) =
        omega (arith, longer) in
      record {
        old_tail = old_tail;
        old_head = old_head;
        head_at = head_at;
        tail_at =
            ap (next_index (2 ^ k)) tail_at
            ∙ next_index-mod k (length s.popped)
            ∙ ap (λ n. n % 2 ^ k) (sym longer);
        shadow_tail_at = shadow_tail_at;
        shadow_head_at = shadow_head_at;
        tail_seen = omega (arith, longer);
        head_seen = head_seen;
        behind = omega (arith, longer, ok.0);
        room = room;
        array = array;
        held = λ i lo hi. held i (omega (arith, longer)) hi;
        fifo = rw longer' (
            rw (take-suc (length s.popped) s.pushed zeroed_entry (omega (arith, ok.0)), ok.1)
              (ap (λ l. l ++ entry ∷ []) fifo));
        producer_ok = producer_ok;
        consumer_ok = tt;
      }
