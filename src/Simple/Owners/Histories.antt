-- ===== src/Simple/Owners/Histories.antt =====
-- The histories of clients of the heap.
use aethalloc.Prelude.{
  ℕ, ◌+◌, ◌^◌, ◌≤◌, ◌<◌, ◌≡◌, refl, sym, ◌∙◌, ap, subst, arith, inl, inr, Option, List, [], ◌∷◌,
  ◌++◌, All-append, All-append_left, All-append_right, total_from-replicate, get_or,
  get_or-replicate, replicate,
}
use mathlib.Core.Option.{some_inj}
use aethalloc.Page.{AnswersOk}
use aethalloc.Global.Memory.{Memory, num_size_classes}
use aethalloc.Global.Extents.{covers, mapped}
use aethalloc.Global.Owners.{Live, LiveOk, taken, owned}
use aethalloc.Global.Owners.Headers.{LiveOk-within, LiveOk-kept, All-LiveOk-kept}
use aethalloc.Global.Owners.Histories.{owned-append, covers_inner, covers_before}
use aethalloc.Simple.{State, start}
use aethalloc.Simple.Invariant.{class_cover, free_cover}
use aethalloc.Simple.Frames.{with_memory-Kept}
use aethalloc.Simple.Serving.{MapsApart}
use aethalloc.Simple.Owners.{
  seen, System, Act, takes, is_refused, returns, writes, Run, starts, then_step, Orderly,
}
use aethalloc.Simple.Owners.Taking.{Outcome, alloc-Outcome_simple}
use aethalloc.Simple.Owners.Returning.{Given, dealloc-Given, to_lists, to_kernel}

start-Orderly :
    (memory : Memory) (answers : List (Option ℕ))
    → AnswersOk answers
    → Orderly (record { heap = start memory (record { answers = answers; calls = [] }); live = [] })
start-Orderly memory answers ok = record {
  locals = replicate num_size_classes [];
  globals = replicate num_size_classes [];
  kept = record {
    local_lists = λ c lt. rw (null_heads c, no_blocks c) refl;
    global_lists = λ c lt. rw (null_heads c, no_blocks c) refl;
    counted = λ c lt. rw (null_heads c, no_blocks c) refl;
    heads_length = refl;
    counts_length = refl;
    free_lists_length = refl;
    locals_length = refl;
    globals_length = refl;
    answers_ok = ok;
  };
  short = λ c lt. rw (no_blocks c) (omega arith);
  single = λ a. omega arith;
  apart =
      λ a. omega (arith, total_from-replicate (class_cover a) 0 num_size_classes [] (λ c. refl));
  headers = tt;
  placed = tt;
}
  where
    null_heads : (c : ℕ) → get_or (replicate {A = ℕ} 14 0) c 0 ≡ 0
    null_heads c = get_or-replicate 14 c 0

    no_blocks : (c : ℕ) → get_or (replicate {A = List ℕ} 14 []) c [] ≡ []
    no_blocks c = get_or-replicate 14 c []

abbrev pub Placed : Live → Type 0
Placed b = (0 < b.base) × (b.base < 2 ^ 64)

Act-Orderly : {s s' : System} → Orderly s → Act s s' → Orderly s'
Act-Orderly o (takes l rounds {st} {st'} {ptr} {live} lay p few ends got some_ptr single) =
    let (r, e, outcome) =
      alloc-Outcome_simple rounds {l = l} {st = st} {ls = o.locals} {gs = o.globals} ends o.short
        (λ a. omega (arith, o.apart a)) o.single o.kept lay p few in
    let same : r ≡ (ptr, st') = some_inj.0 (sym e ∙ got) in
    elim (subst (λ x. MapsApart x.1 → Outcome l st o.locals o.globals x) same outcome single) [
      | inl (nothing, _) ↦ absurd (some_ptr nothing)
      | inr (_, t) ↦
          let new = taken l ptr (seen st') in
          let apart : (a : ℕ)
              → free_cover a t.locals t.globals + (covers a new.base new.len + owned a live)
                ≤ mapped a st'.os.calls =
            λ a. omega (arith, t.moves.grown a, o.apart a) in
          record {
            locals = t.locals;
            globals = t.globals;
            kept = t.moves.kept;
            short = t.short;
            single = single;
            apart = apart;
            headers = (
              t.live_ok,
              All-LiveOk-kept (seen st) (seen st') live o.headers
                  (λ a inside. t.moves.outside a (omega (arith, inside, apart a, single a))),
            );
            placed = (t.placed, o.placed);
          }
    ]
Act-Orderly o (is_refused l rounds {st} {st'} {live} lay p few ends got single) =
    let (r, e, outcome) =
      alloc-Outcome_simple rounds {l = l} {st = st} {ls = o.locals} {gs = o.globals} ends o.short
        (λ a. omega (arith, o.apart a)) o.single o.kept lay p few in
    let same : r ≡ (0, st') = some_inj.0 (sym e ∙ got) in
    elim (subst (λ x. MapsApart x.1 → Outcome l st o.locals o.globals x) same outcome single) [
      | inl (_, t) ↦
          let apart : (a : ℕ)
              → free_cover a t.locals t.globals + owned a live ≤ mapped a st'.os.calls =
            λ a. omega (arith, t.moves.grown a, o.apart a) in
          record {
            locals = t.locals;
            globals = t.globals;
            kept = t.moves.kept;
            short = t.short;
            single = single;
            apart = apart;
            headers =
                All-LiveOk-kept (seen st) (seen st') live o.headers
                  (λ a inside. t.moves.outside a (omega (arith, inside, apart a, single a)));
            placed = o.placed;
          }
      | inr (some_ptr, _) ↦ absurd (some_ptr refl)
    ]
Act-Orderly o (returns before b after rounds {st} {st'} ends got single) =
    let kept = All-append_left (LiveOk (seen st)) before (b ∷ after) o.headers in
    let (live_ok, rest) = All-append_right (LiveOk (seen st)) before (b ∷ after) o.headers in
    let left = All-append_left Placed before (b ∷ after) o.placed in
    let (placed, right) = All-append_right Placed before (b ∷ after) o.placed in
    let all = λ (a : ℕ). owned-append a before (b ∷ after) in
    let others = λ (a : ℕ). owned-append a before after in
    let (st'', e, given) =
      dealloc-Given rounds {st = st} {b = b} {ls = o.locals} {gs = o.globals} ends live_ok placed.0
        placed.1 o.short (λ a. omega (arith, o.apart a, o.single a, all a)) o.kept in
    let same : st'' ≡ st' = some_inj.0 (sym e ∙ got) in
    let headers = All-append (LiveOk (seen st)) before after kept rest in
    elim (subst (λ x. Given b st o.locals o.globals x) same given) [
      | to_lists {ls'} {gs'} f short _ _ ↦
          let apart : (a : ℕ)
              → free_cover a ls' gs' + owned a (before ++ after) ≤ mapped a st'.os.calls =
            λ a. omega (arith, f.grown a, o.apart a, all a, others a) in
          record {
            locals = ls';
            globals = gs';
            kept = f.kept;
            short = short;
            single = single;
            apart = apart;
            headers =
                All-LiveOk-kept (seen st) (seen st') (before ++ after) headers
                  (λ a inside. f.outside a (omega (arith, inside, apart a, single a)));
            placed = All-append Placed before after left right;
          }
      | to_kernel kept' _ memory calls ↦ record {
        locals = o.locals;
        globals = o.globals;
        kept = kept';
        short = o.short;
        single = single;
        apart = λ a. omega (arith, o.apart a, all a, others a, o.single a, ap (mapped a) calls);
        headers =
            All-LiveOk-kept (seen st) (seen st') (before ++ after) headers
              (λ a inside. ap (λ (m : Memory). m a) memory);
        placed = All-append Placed before after left right;
      }
    ]
Act-Orderly o (writes before b after m {st} outside) =
    let kept = All-append_left (LiveOk (seen st)) before (b ∷ after) o.headers in
    let (live_ok, rest) = All-append_right (LiveOk (seen st)) before (b ∷ after) o.headers in
    let (lo, hi) = LiveOk-within live_ok in
    let inner = λ (a : ℕ). covers_inner a b.base b.len b.ptr b.size (omega arith) hi in
    let all = λ (a : ℕ). owned-append a before (b ∷ after) in
    let st' : State = record st { memory = m } in
    record {
      locals = o.locals;
      globals = o.globals;
      kept =
          with_memory-Kept m
            (λ a inside. outside a (omega (arith, inside, inner a, all a, o.apart a, o.single a)))
            o.kept;
      short = o.short;
      single = o.single;
      apart = o.apart;
      headers =
          All-append (LiveOk (seen st')) before (b ∷ after)
            (All-LiveOk-kept (seen st) (seen st') before kept (λ a inside.
              outside a (omega (arith, inside, inner a, all a, o.apart a, o.single a))))
            (
              LiveOk-kept live_ok
                  (λ a inside below. outside a (covers_before a b.ptr b.size below)),
              All-LiveOk-kept (seen st) (seen st') after rest (λ a inside.
                  outside a (omega (arith, inside, inner a, all a, o.apart a, o.single a))),
            );
      placed = o.placed;
    }

-- In simple-cache mode, in every state of a history of clients (requests of at least one byte and less
-- than 2^32 pages, releases of blocks that are held, and writes within the bytes asked for, in any
-- order, while no two mappings overlap and in no loop all swaps fail for no reason), the free
-- lists lie in memory as their heads and counts say, those of the thread hold less than 4096 blocks
-- each, free blocks and blocks held by clients lie apart within the mappings, and the headers of the
-- blocks that clients hold are in place.
pub Run-Orderly : {s : System} → Run s → Orderly s
Run-Orderly (starts memory answers ok) = start-Orderly memory answers ok
Run-Orderly (then_step r step) = Act-Orderly (Run-Orderly r) step
