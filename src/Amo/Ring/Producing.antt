-- ===== src/Amo/Ring/Producing.antt =====
-- The steps of the producer keep the invariant of the ring.
use native.Mathlib.Nat.{mod-lt}
use aethalloc.Prelude.{
  ℕ, ◌+◌, ◌%◌, ◌^◌, ◌<◌, ◌≤◌, ◌≡◌, ◌≢◌, refl, subst, ◌∙◌, sym, ap, inl, inr, arith, false, [], ◌∷◌,
  ◌++◌, ◌==◌, if◌then◌else◌, Bool-cases, length, get_or, length-set, length-append, get_or-set_self,
  get_or-set_ne, get_or-append_of_lt, get_or-append_end, take-append_of_le,
}
use aethalloc.Amo.Command.{RingEntry, zeroed_entry}
use aethalloc.Amo.Ring.{new, next_index, push_check, push_write, push_publish}
use aethalloc.Amo.Ring.Index.{next_index-mod, has_room, eq_of_mod-eq, pow-pos}
use aethalloc.Amo.Ring.Threads.{Producer, Consumer, System}
use native.Mathlib.Decide.{dec_lt}
use aethalloc.Amo.Ring.Invariant.{Inv, ProducerOk, ConsumerOk}

module _ {k : ℕ} {s : System} (inv : Inv k s) where
  open inv use {
    old_tail, old_head, head_at, tail_at, shadow_tail_at, shadow_head_at, tail_seen, head_seen,
    behind, room, array, held, fifo, producer_ok, consumer_ok,
  }

  push_room :
      (c : ℕ)
      → length s.pushed < c + 2 ^ k
      → (next_index (2 ^ k) s.ring.head == c % 2 ^ k) ≡ false
      → length s.pushed + 1 < c + 2 ^ k
  push_room c h e =
      let at : next_index (2 ^ k) s.ring.head ≡ (length s.pushed + 1) % 2 ^ k =
        ap (next_index (2 ^ k)) head_at ∙ next_index-mod k (length s.pushed) in
      has_room (2 ^ k) (length s.pushed) c h (ground (arith, at))

  pub check_push-Inv :
      (entry : RingEntry)
      → Inv k (record s {
        ring = (push_check (2 ^ k) s.ring).1;
        producer = if (push_check (2 ^ k) s.ring).0 then Producer.writing entry else Producer.idle;
      })
  unfolding push_check
  check_push-Inv entry = elim (Bool-cases (next_index (2 ^ k) s.ring.head == s.ring.shadow_tail)) [
    | inl e ↦ elim (Bool-cases (next_index (2 ^ k) s.ring.head == s.ring.tail)) [
      | inl f ↦
          rw (e, f)
            (record {
              old_tail = length s.popped;
              old_head = old_head;
              head_at = head_at;
              tail_at = tail_at;
              shadow_tail_at = tail_at;
              shadow_head_at = shadow_head_at;
              tail_seen = omega arith;
              head_seen = head_seen;
              behind = behind;
              room = omega arith;
              array = array;
              held = held;
              fifo = fifo;
              producer_ok = tt;
              consumer_ok = consumer_ok;
            })
      | inr f ↦
          rw (e, f)
            (record {
              old_tail = length s.popped;
              old_head = old_head;
              head_at = head_at;
              tail_at = tail_at;
              shadow_tail_at = tail_at;
              shadow_head_at = shadow_head_at;
              tail_seen = omega arith;
              head_seen = head_seen;
              behind = behind;
              room = omega arith;
              array = array;
              held = held;
              fifo = fifo;
              producer_ok = push_room (length s.popped) (omega arith) (rw tail_at at f);
              consumer_ok = consumer_ok;
            })
    ]
    | inr e ↦ rw e (record {
      old_tail = old_tail;
      old_head = old_head;
      head_at = head_at;
      tail_at = tail_at;
      shadow_tail_at = shadow_tail_at;
      shadow_head_at = shadow_head_at;
      tail_seen = tail_seen;
      head_seen = head_seen;
      behind = behind;
      room = room;
      array = array;
      held = held;
      fifo = fifo;
      producer_ok = push_room old_tail room (rw shadow_tail_at at e);
      consumer_ok = consumer_ok;
    })
  ]

  -- The slot that the producer writes holds no entry that is still to be read.
  pub write_apart :
      (i : ℕ)
      → length s.pushed + 1 < old_tail + 2 ^ k
      → length s.popped ≤ i
      → i < length s.pushed
      → s.ring.head ≢ i % 2 ^ k
  write_apart i free lo hi e = absurd (
      omega (
        arith,
        eq_of_mod-eq (2 ^ k) i (length s.pushed) (omega arith) (omega arith) (sym head_at ∙ e),
      ))

  pub write-Inv :
      (entry : RingEntry)
      → s.producer ≡ Producer.writing entry
      → Inv k (record s {
        ring = push_write (2 ^ k) entry s.ring;
        producer = Producer.publishing entry;
      })
  unfolding push_write
  write-Inv entry at =
      let free : length s.pushed + 1 < old_tail + 2 ^ k = ground (arith, producer_ok) in
      let inside : s.ring.head < length s.ring.buffer =
        omega (arith, mod-lt (length s.pushed) (pow-pos k)) in
      record {
        old_tail = old_tail;
        old_head = old_head;
        head_at = head_at;
        tail_at = tail_at;
        shadow_tail_at = shadow_tail_at;
        shadow_head_at = shadow_head_at;
        tail_seen = tail_seen;
        head_seen = head_seen;
        behind = behind;
        room = room;
        array = length-set s.ring.buffer s.ring.head entry ∙ array;
        held = λ i lo hi.
            get_or-set_ne s.ring.buffer s.ring.head (i % 2 ^ k) entry zeroed_entry
              (write_apart i free lo hi)
            ∙ held i lo hi;
        fifo = fifo;
        producer_ok = (
          free,
          rw (← head_at) (get_or-set_self s.ring.buffer s.ring.head entry zeroed_entry inside),
        );
        consumer_ok = consumer_ok;
      }

  published :
      (entry : RingEntry)
      → get_or s.ring.buffer (length s.pushed % 2 ^ k) zeroed_entry ≡ entry
      → (i : ℕ) → length s.popped ≤ i
      → i < length s.pushed + 1
      → get_or s.ring.buffer (i % 2 ^ k) zeroed_entry
        ≡ get_or (s.pushed ++ entry ∷ []) i zeroed_entry
  published entry e i lo hi = elim (dec_lt i (length s.pushed)) [
    | yes old ↦ held i lo old ∙ sym (get_or-append_of_lt s.pushed (entry ∷ []) i zeroed_entry old)
    | no new ↦
        let last : i ≡ length s.pushed = omega arith in
        rw last (e ∙ sym (get_or-append_end s.pushed (length s.pushed) entry zeroed_entry refl))
  ]

  ConsumerOk-append :
      (entry : RingEntry)
      → ConsumerOk (length s.popped) old_head (s.pushed ++ entry ∷ []) s.consumer
  ConsumerOk-append entry = go s.consumer consumer_ok
    where
      go :
          (c : Consumer)
          → ConsumerOk (length s.popped) old_head s.pushed c
          → ConsumerOk (length s.popped) old_head (s.pushed ++ entry ∷ []) c
      go Consumer.idle ok = tt
      go Consumer.reading ok = ok
      go (Consumer.retiring e) ok = (
        ok.0,
        get_or-append_of_lt s.pushed (entry ∷ []) (length s.popped) zeroed_entry
              (omega (arith, ok.0))
            ∙ ok.1,
      )

  pub publish-Inv :
      (entry : RingEntry)
      → s.producer ≡ Producer.publishing entry
      → Inv k (record s {
        ring = push_publish (2 ^ k) s.ring;
        producer = Producer.idle;
        pushed = s.pushed ++ entry ∷ [];
      })
  unfolding push_publish
  publish-Inv entry at =
      let ok : (length s.pushed + 1 < old_tail + 2 ^ k)
          × (get_or s.ring.buffer (length s.pushed % 2 ^ k) zeroed_entry ≡ entry) =
        subst (ProducerOk (2 ^ k) (length s.pushed) old_tail s.ring.buffer) at producer_ok in
      let longer : length (s.pushed ++ entry ∷ []) ≡ length s.pushed + 1 =
        length-append s.pushed (entry ∷ []) in
      record {
        old_tail = old_tail;
        old_head = old_head;
        head_at =
            ap (next_index (2 ^ k)) head_at
            ∙ next_index-mod k (length s.pushed)
            ∙ ap (λ n. n % 2 ^ k) (sym longer);
        tail_at = tail_at;
        shadow_tail_at = shadow_tail_at;
        shadow_head_at = shadow_head_at;
        tail_seen = tail_seen;
        head_seen = omega (arith, longer);
        behind = behind;
        room = omega (arith, longer, ok.0);
        array = array;
        held = λ i lo hi. published entry ok.1 i lo (omega (arith, longer));
        fifo = fifo ∙ sym (take-append_of_le (length s.popped) s.pushed (entry ∷ []) (omega arith));
        producer_ok = tt;
        consumer_ok = ConsumerOk-append entry;
      }
