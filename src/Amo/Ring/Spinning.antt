-- ===== src/Amo/Ring/Spinning.antt =====
-- `push` and `pop`, which try again until they succeed. Between two attempts the other thread may
-- change the ring: the list says how, one change for each attempt that fails.
use aethalloc.Prelude.{
  length-append, get_or-append_of_lt, sym, ℕ, ◌^◌, ◌≤◌, ◌<◌, ◌≡◌, refl, arith, Option, none, some,
  List, [], ◌∷◌, ◌++◌, inl, inr, length, get_or, pow_mono,
}
use aethalloc.Amo.Command.{RingEntry, zeroed_entry}
use aethalloc.Amo.Ring.{Ring, try_push, try_pop}
use aethalloc.Amo.Ring.Threads.{System, Producer, Consumer}
use aethalloc.Amo.Ring.Invariant.{Inv}
use aethalloc.Amo.Ring.Fifo.{try_push_lem, try_pop_lem}

module _ (capacity : ℕ) where
  -- No answer is a loop that has not ended.
  unfoldable pub push : List (Ring → Ring) → Ring → RingEntry → Option Ring
  unfolding try_push
  push [] r entry =
      let (done, r') = try_push capacity r entry in elim done [ some _ ↦ some r' | none ↦ none ]
  push (other ∷ others) r entry =
      let (done, r') = try_push capacity r entry in
      let again = push others (other r') entry in elim done [ some _ ↦ some r' | none ↦ again ]

  unfoldable pub pop : List (Ring → Ring) → Ring → Option (RingEntry × Ring)
  unfolding try_pop
  pop [] r =
      let (out, r') = try_pop capacity r in elim out [ some entry ↦ some (entry, r') | none ↦ none ]
  pop (other ∷ others) r =
      let (out, r') = try_pop capacity r in
      let again = pop others (other r') in elim out [ some entry ↦ some (entry, r') | none ↦ again ]

-- One `try_pop` of the other thread.
abbrev pub one_pop : ℕ → Ring → Ring
one_pop capacity r = (try_pop capacity r).1

-- One `try_push` of the other thread.
abbrev pub one_push : ℕ → RingEntry → Ring → Ring
one_push capacity entry r = (try_push capacity r entry).1

-- Where the invariant of the ring holds, its capacity is at least 2 and both threads are idle: `push`
-- returns as soon as the consumer has popped once, and the entry is the last one pushed.
pub push-one_pop :
    {k : ℕ} {s : System} (entry : RingEntry)
    → 0 < k
    → Inv k s
    → s.producer ≡ Producer.idle
    → s.consumer ≡ Consumer.idle
    → (s' : System) × (push (2 ^ k) (one_pop (2 ^ k) ∷ []) s.ring entry ≡ some s'.ring)
      × Inv k s'
      × (s'.pushed ≡ s.pushed ++ entry ∷ [])
unfolding push
push-one_pop {k} {s} entry p inv producing consuming =
    let r = (try_push (2 ^ k) s.ring entry).1 in
    elim (try_push_lem entry inv producing) [
      | inl (room, done, ok) ↦ (
        record s { ring = r; pushed = s.pushed ++ entry ∷ []; producer = Producer.idle },
        rw (push, done) refl,
        ok,
        refl,
      )
      | inr (full, refused, ok) ↦
          let two : 2 ≤ 2 ^ k = pow_mono 1 k p in
          let waiting : System = record s { ring = r; producer = Producer.idle } in
          let oldest = get_or s.pushed (length s.popped) zeroed_entry in
          elim (try_pop_lem ok consuming) [
            | inr (empty, _, _) ↦ absurd (omega (arith, full, empty, two))
            | inl (held, out, ok') ↦
                let popped : System = record waiting {
                  ring = one_pop (2 ^ k) r;
                  popped = s.popped ++ oldest ∷ [];
                  consumer = Consumer.idle;
                } in
                elim (try_push_lem {s = popped} entry ok' refl) [
                  | inl (room, done, ok'') ↦ (
                    record popped {
                      ring = (try_push (2 ^ k) popped.ring entry).1;
                      pushed = s.pushed ++ entry ∷ [];
                    },
                    rw (push, refused, push, done) refl,
                    ok'',
                    refl,
                  )
                  | inr (full', _, _) ↦
                      absurd (omega (arith, full, full', length-append s.popped (oldest ∷ []), two))
                ]
          ]
    ]

-- Where the invariant of the ring holds, its capacity is at least 2 and both threads are idle: `pop`
-- returns as soon as the producer has pushed an entry, and what it returns is the oldest entry in
-- flight, or that entry if there was none.
pub pop-one_push :
    {k : ℕ} {s : System} (entry : RingEntry)
    → 0 < k
    → Inv k s
    → s.producer ≡ Producer.idle
    → s.consumer ≡ Consumer.idle
    → (s' : System) × (out : RingEntry) × (pop (2 ^ k) (one_push (2 ^ k) entry ∷ []) s.ring
        ≡ some (out, s'.ring))
      × Inv k s'
      × (s'.popped ≡ s.popped ++ out ∷ [])
      × (out ≡ get_or (s.pushed ++ entry ∷ []) (length s.popped) zeroed_entry)
unfolding pop
pop-one_push {k} {s} entry p inv producing consuming =
    let r = (try_pop (2 ^ k) s.ring).1 in
    let oldest = get_or s.pushed (length s.popped) zeroed_entry in
    elim (try_pop_lem inv consuming) [
      | inl (held, out, ok) ↦ (
        record s { ring = r; popped = s.popped ++ oldest ∷ []; consumer = Consumer.idle },
        oldest,
        rw (pop, out) refl,
        ok,
        refl,
        sym (get_or-append_of_lt s.pushed (entry ∷ []) (length s.popped) zeroed_entry held),
      )
      | inr (empty, refused, ok) ↦
          let two : 2 ≤ 2 ^ k = pow_mono 1 k p in
          let waiting : System = record s { ring = r; consumer = Consumer.idle } in
          elim (try_push_lem {s = waiting} entry ok producing) [
            | inr (full, _, _) ↦ absurd (omega (arith, full, empty, two))
            | inl (room, done, ok') ↦
                let pushed : System = record waiting {
                  ring = one_push (2 ^ k) entry r;
                  pushed = s.pushed ++ entry ∷ [];
                  producer = Producer.idle;
                } in
                let next = get_or pushed.pushed (length s.popped) zeroed_entry in
                elim (try_pop_lem {s = pushed} ok' refl) [
                  | inl (held, out, ok'') ↦ (
                    record pushed {
                      ring = (try_pop (2 ^ k) pushed.ring).1;
                      popped = s.popped ++ next ∷ [];
                    },
                    next,
                    rw (pop, refused, pop, out) refl,
                    ok'',
                    refl,
                    refl,
                  )
                  | inr (empty', _, _) ↦
                      absurd (omega (arith, empty, empty', length-append s.pushed (entry ∷ [])))
                ]
          ]
    ]
