-- ===== src/Simple/Requests.antt =====
-- A small request as a whole: from the thread's list, from the global list, or from new pages.
use aethalloc.Prelude.{
  ℕ, ◌+◌, ◌^◌, ◌≤◌, ◌<◌, ◌≡◌, ◌≢◌, refl, ap, subst, arith, Bool, true, Option, some, List, [], ◌∷◌,
  inl, inr, ◌==◌, ltb, Bool-cases, List-cases, length, set, get_or-set_self, ◌>>=◌, if◌then◌else◌,
  if◌then◌else◌,
}
use aethalloc.Pool.Chains.{Ends}
use aethalloc.Page.{Os}
use aethalloc.Global.Memory.{Memory, max_cache_size}
use aethalloc.Global.Extents.{mapped}
use aethalloc.Simple.{State, head, free_list, pop_batch}
use aethalloc.Simple.Alloc.{alloc_small, hit, miss, global_free_batch}
use aethalloc.Simple.Chains.{Seg}
use aethalloc.Simple.Invariant.{Lists, class_list, free_cover, Kept}
use aethalloc.Simple.Batches.{set-SameElsewhere, pop_batch_lem}
use aethalloc.Simple.Serving.{MapsApart, Short, Served, Short-of_class, hit-Handed, after-Served}
use aethalloc.Simple.Misses.{miss-Served}

-- The head is null just where the list is empty.
pub empty_of_null : (m : Memory) (from : ℕ) (xs : List ℕ) → Seg m 0 from xs → from ≡ 0 → xs ≡ []
empty_of_null m from [] seg e = refl
empty_of_null m from (x ∷ xs) seg e = let (at, (pos, _, _), _) = seg in absurd (omega arith)

pub null_of_empty : (m : Memory) (from : ℕ) (xs : List ℕ) → Seg m 0 from xs → xs ≡ [] → from ≡ 0
null_of_empty m from xs seg e = subst (Seg m 0 from) e seg

-- A shorter list of one class.
Short-set :
    (class : ℕ) (ls : Lists) (xs : List ℕ)
    → class < length ls
    → length xs < 4096
    → Short ls
    → Short (set ls class xs)
Short-set class ls xs lt less short =
    Short-of_class class ls (set ls class xs) short (set-SameElsewhere class ls xs)
      (rw (get_or-set_self ls class xs [] lt) less)

module _ (class size : ℕ) {st : State} {ls gs : Lists} (small : size ≤ max_cache_size)
    (lt : class < 13) (short : Short ls)
    (inside : (a : ℕ) → free_cover a ls gs ≤ mapped a st.os.calls) (single : MapsApart st)
    (kept : Kept st ls gs) where
  hit-Served :
      {answers : List (Option ℕ)}
      → class_list ls class ≢ []
      → Served class size answers st ls gs (hit class size st)
  hit-Served full = elim (List-cases (class_list ls class)) [
    | inl empty ↦ absurd (full empty)
    | inr (b, bs, e) ↦
        let less : length bs < 4096 = omega (arith, short class (omega arith), ap length e) in
        inr (
          hit-Handed class size small lt b bs e inside single
            (Short-set class ls bs (omega (arith, kept.locals_length)) less short) less kept)
  ]

module _ (rounds : ℕ → List Bool) (class size : ℕ) {st : State} {ls gs : Lists}
    (ends : (i : ℕ) → Ends (rounds i)) (small : size ≤ max_cache_size) (lt : class < 13)
    (short : Short ls) (inside : (a : ℕ) → free_cover a ls gs ≤ mapped a st.os.calls)
    (single : MapsApart st) (kept : Kept st ls gs) where
  abbrev Answer : Option (ℕ × State) → Type 0
  Answer o =
      (r : ℕ × State) × (o ≡ some r) × (MapsApart r.1 → Served class size st.os.answers st ls gs r)

  -- The global list holds a block: a batch of it is moved, and its last block is handed out.
  batch-Served :
      class_list ls class ≡ []
      → class_list gs class ≢ []
      → Answer (do
        (transferred, st') ← pop_batch rounds global_free_batch class st
        if ltb 0 transferred
            then some (hit class size st')
            else some (miss class (2 ^ (class + 4)) size st'))
  batch-Served empty full =
      let (moved, st1, e, t) =
        pop_batch_lem rounds global_free_batch class {st = st} {ls = ls} {gs = gs} ends
          (omega arith) (omega (arith, ap length empty)) (λ a. omega (arith, inside a, single a))
          kept in
      let some_moved : 0 < moved = elim t.all_or_full [
        | inl none_left ↦ elim (List-cases (class_list gs class)) [
          | inl nothing ↦ absurd (full nothing)
          | inr (x, xs, at) ↦ omega (arith, t.shorter, ap length none_left, ap length at)
        ]
        | inr all ↦ omega arith
      ] in
      let test : ltb 0 moved ≡ true = ground arith in
      let single1 : MapsApart st1 =
        λ a. omega (arith, single a, ap (λ (o : Os). mapped a o.calls) t.same_os) in
      (
        hit class size st1,
        rw (e, test) refl,
        λ _. after-Served class size t.moves (
            hit-Served class size {st = st1} small lt
              (Short-of_class class ls t.locals short t.elsewhere
                (omega (arith, t.longer, t.most, ap length empty)))
              (λ a. omega (arith, t.moves.grown a, inside a)) single1 t.moves.kept
              (λ none_there. omega (arith, t.longer, ap length none_there))),
      )

  -- A small request is answered by a block that leaves the lists or comes from a new mapping, or by
  -- null where `mmap` fails.
  pub alloc_small-Served : Answer (alloc_small rounds class (2 ^ (class + 4)) size st)
  unfolding alloc_small
  alloc_small-Served =
      let here = kept.local_lists class (omega arith) in
      let there = kept.global_lists class (omega arith) in
      elim (Bool-cases (head class st == 0)) [
        | inr full ↦ (
          hit class size st,
          rw full refl,
          λ _.
              hit-Served class size small lt short inside single kept
                (λ empty. ground (arith, null_of_empty st.memory (head class st) _ here empty)),
        )
        | inl null ↦
            let empty = empty_of_null st.memory (head class st) _ here (ground arith) in
            elim (Bool-cases (free_list class st == 0)) [
              | inl null' ↦ (
                miss class (2 ^ (class + 4)) size st,
                rw (null, null') refl,
                λ single'. miss-Served class size small lt short empty inside single' kept,
              )
              | inr full ↦
                  rw (null, full)
                    (batch-Served empty (λ none_there.
                      ground
                        (arith, null_of_empty st.memory (free_list class st) _ there none_there)))
            ]
      ]
