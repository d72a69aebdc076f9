-- ===== src/Simple/Serving.antt =====
-- What a small request is answered with, from each place that a block may come from.
use aethalloc.Prelude.{
  ℕ, ◌+◌, ◌≤◌, ◌<◌, ◌≡◌, ◌≢◌, refl, sym, ◌∙◌, subst, arith, Option, List, ◌∷◌, ◌⊎◌, inl, inr, ◌==◌,
  Bool-cases, set, length,
}
use aethalloc.Global.Memory.{num_size_classes, load64, cache_header_size, max_cache_size}
use aethalloc.Global.Words.{load64-store64, store64-low}
use aethalloc.Global.Extents.{block_size, mapped}
use aethalloc.Global.Owners.Headers.{covers_in}
use aethalloc.Global.Mapping.{Refused}
use aethalloc.Simple.{pop_local, State, head, maybe_flush}
use aethalloc.Simple.Alloc.{hand_out, hit}
use aethalloc.Simple.Chains.{IsBlock}
use aethalloc.Simple.Invariant.{Lists, class_list, free_cover, Kept, write_word-Kept}
use aethalloc.Simple.Moves.{
  Moved, nothing, bytes_of, then_moved, counted_after, store64-outside, pop_local-Moved,
}
use aethalloc.Simple.Batches.{SameElsewhere}

abbrev pub MapsApart : State → Type 0
MapsApart st = (a : ℕ) → mapped a st.os.calls ≤ 1

-- The lists of all classes are shorter than the length at which `dealloc` flushes.
abbrev pub Short : Lists → Type 0
Short ls = (c : ℕ) → c < num_size_classes → length (class_list ls c) < 4096

-- A block handed out: its pointer, its header, and what became of the lists.
pub record Handed (class size : ℕ) (st : State) (ls gs : Lists) (ptr : ℕ) (st' : State)
    : Type 0 where
  pub block : ℕ
  pub behind : ptr ≡ block + cache_header_size
  pub is_block : IsBlock block
  pub header : load64 st'.memory block ≡ size
  pub low : st'.memory block ≡ size
  pub locals : Lists
  pub globals : Lists
  pub moves : Moved nothing (bytes_of block class) st ls gs st' locals globals
  pub short : Short locals

-- A refusal, on the answers of `mmap` that are given.
pub record Denied (answers : List (Option ℕ)) (st : State) (ls gs : Lists) (ptr : ℕ) (st' : State)
    : Type 0 where
  pub null : ptr ≡ 0
  pub failed : Refused answers
  pub locals : Lists
  pub globals : Lists
  pub moves : Moved nothing nothing st ls gs st' locals globals
  pub short : Short locals

abbrev pub Served : (class size : ℕ) → List (Option ℕ) → State → Lists → Lists → ℕ × State → Type 0
Served class size answers st ls gs (ptr, st') =
    Denied answers st ls gs ptr st' ⊎ Handed class size st ls gs ptr st'

pub Short-of_class :
    (class : ℕ) (ls ls' : Lists)
    → Short ls
    → SameElsewhere class ls ls'
    → length (class_list ls' class) < 4096
    → Short ls'
Short-of_class class ls ls' short elsewhere h c lt = elim (Bool-cases (c == class)) [
  | inl same ↦ let e : c ≡ class = ground arith in rw e h
  | inr other ↦ let ne : c ≢ class = ground arith in rw (elsewhere c ne) (short c lt)
]

-- The header is written in a block that has left the lists.
pub hand_out-Handed :
    (class size block : ℕ) {st st1 : State} {ls gs ls1 gs1 : Lists}
    → size ≤ max_cache_size
    → IsBlock block
    → ((a : ℕ) → free_cover a ls gs ≤ mapped a st.os.calls)
    → MapsApart st1
    → Short ls1
    → Moved nothing (bytes_of block class) st ls gs st1 ls1 gs1
    → let (ptr, st') = hand_out block size st1 in Handed class size st ls gs ptr st'
unfolding hand_out
hand_out-Handed class size block {st} {st1} {ls} {gs} {ls1} {gs1} small is_block inside single short
      f =
    let own = covers_in block block (block_size class) (omega arith) (omega arith) in
    let kept =
      write_word-Kept block size is_block.1
        (omega (arith, own, f.grown block, inside block, single block)) f.kept in
    record {
      block = block;
      behind = refl;
      is_block = is_block;
      header = load64-store64 st1.memory block size (omega arith);
      low = store64-low st1.memory block size ∙ omega arith;
      locals = ls1;
      globals = gs1;
      moves = record {
        kept = kept;
        grown = f.grown;
        none_lost = f.none_lost;
        outside = λ a none.
            store64-outside st1.memory block size (block_size class) a (omega arith)
              (omega (arith, none))
            ∙ f.outside a none;
      };
      short = short;
    }

module _ (class size : ℕ) (small : size ≤ max_cache_size) (lt : class < 13) where
  pub hit-Handed :
      {st : State} {ls gs : Lists} (b : ℕ) (bs : List ℕ)
      → class_list ls class ≡ b ∷ bs
      → ((a : ℕ) → free_cover a ls gs ≤ mapped a st.os.calls)
      → MapsApart st
      → Short (set ls class bs)
      → length bs < 4096
      → Kept st ls gs
      → let (ptr, st') = hit class size st in Handed class size st ls gs ptr st'
  unfolding hit maybe_flush pop_local
  hit-Handed {st} {ls} {gs} b bs e inside single short less kept =
      let (at, is_block, f) =
        pop_local-Moved {st = st} class b bs (omega arith) e (omega arith) kept in
      let st1 = pop_local class st in
      let m = record (st1.metrics) {
        cache_hits = st1.metrics.cache_hits + 1;
        allocs = st1.metrics.allocs + 1;
      } in
      let f' =
        subst (λ x. Moved nothing (bytes_of x class) st ls gs st1 (set ls class bs) gs) (sym at)
          f in
      hand_out-Handed class size (head class st) {st = st}
        {st1 = maybe_flush (record st1 { metrics = m })} small (subst IsBlock (sym at) is_block)
        inside single short (counted_after _ _ f')

pub after-Served :
    (class size : ℕ) {answers : List (Option ℕ)} {st st1 : State} {ls gs ls1 gs1 : Lists}
    {r : ℕ × State}
    → Moved nothing nothing st ls gs st1 ls1 gs1
    → Served class size answers st1 ls1 gs1 r
    → Served class size answers st ls gs r
after-Served class size f (inl d) = inl (record {
  null = d.null;
  failed = d.failed;
  locals = d.locals;
  globals = d.globals;
  moves = then_moved f d.moves;
  short = d.short;
})
after-Served class size f (inr h) = inr (record {
  block = h.block;
  behind = h.behind;
  is_block = h.is_block;
  header = h.header;
  low = h.low;
  locals = h.locals;
  globals = h.globals;
  moves = then_moved f h.moves;
  short = h.short;
})
