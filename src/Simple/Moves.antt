-- ===== src/Simple/Moves.antt =====
-- Blocks on their way between the lists: what an operation moves, takes and gives.
use aethalloc.Prelude.{
  ℕ, ◌+◌, ◌^◌, ◌≤◌, ◌<◌, ◌≡◌, refl, ◌∙◌, ap, subst, arith, Bool, true, false, none, some, List, [],
  ◌∷◌, ◌==◌, set, length,
}
use aethalloc.Pool.Chains.{Ends}
use aethalloc.Global.Memory.{num_size_classes, store64}
use aethalloc.Global.Metrics.{Metrics}
use aethalloc.Global.Words.{store64-apart}
use aethalloc.Global.Extents.{covers, block_size, mapped}
use aethalloc.Global.Owners.Headers.{covers_in}
use aethalloc.Simple.{State, head, free_list, push_local, pop_local, set_free_list, pop, read_word}
use aethalloc.Simple.Chains.{IsBlock, Seg}
use aethalloc.Simple.Invariant.{
  Lists, class_list, class_cover, free_cover, Kept, lists_cover-set, push_local-Kept,
  pop_local-Kept, set_free_list-Kept,
}

-- From the first state to the second, with the bytes `given` to the lists from outside and the bytes
-- `taken` of them: no byte is in more lists than before but by a new mapping, none is lost, and no word
-- is written but in the blocks that are free or taken at the end.
pub record Moved (given taken : ℕ → ℕ) (st : State) (ls gs : Lists) (st' : State) (ls' gs' : Lists)
    : Type 0 where
  pub kept : Kept st' ls' gs'
  pub grown :
      (a : ℕ)
      → free_cover a ls' gs' + taken a + mapped a st.os.calls
        ≤ free_cover a ls gs + given a + mapped a st'.os.calls
  pub none_lost : (a : ℕ) → free_cover a ls gs + given a ≤ free_cover a ls' gs' + taken a
  pub outside : (a : ℕ) → free_cover a ls' gs' + taken a ≡ 0 → st'.memory a ≡ st.memory a

abbrev pub nothing : ℕ → ℕ
nothing a = 0

abbrev pub bytes_of : (block class : ℕ) → ℕ → ℕ
bytes_of block class a = covers a block (block_size class)

pub stays : {st : State} {ls gs : Lists} → Kept st ls gs → Moved nothing nothing st ls gs st ls gs
stays kept = record {
  kept = kept;
  grown = λ a. omega arith;
  none_lost = λ a. omega arith;
  outside = λ a out. refl;
}

pub then_moved :
    {x y z : ℕ → ℕ} {st st' st'' : State} {ls gs ls' gs' ls'' gs'' : Lists}
    → Moved x y st ls gs st' ls' gs'
    → Moved y z st' ls' gs' st'' ls'' gs''
    → Moved x z st ls gs st'' ls'' gs''
then_moved f g = record {
  kept = g.kept;
  grown = λ a. omega (arith, f.grown a, g.grown a);
  none_lost = λ a. omega (arith, f.none_lost a, g.none_lost a);
  outside = λ a out. g.outside a out ∙ f.outside a (omega (arith, g.none_lost a));
}

-- Bytes outside of the lists that an operation leaves alone.
pub besides :
    (extra : ℕ → ℕ) {x y : ℕ → ℕ} {st st' : State} {ls gs ls' gs' : Lists}
    → Moved x y st ls gs st' ls' gs'
    → Moved (λ a. x a + extra a) (λ a. y a + extra a) st ls gs st' ls' gs'
besides extra f = record {
  kept = f.kept;
  grown = λ a. omega (arith, f.grown a);
  none_lost = λ a. omega (arith, f.none_lost a);
  outside = λ a out. f.outside a (omega (arith, out));
}

pub same_bytes :
    {x x' y y' : ℕ → ℕ} {st st' : State} {ls gs ls' gs' : Lists}
    → ((a : ℕ) → x a ≡ x' a)
    → ((a : ℕ) → y a ≡ y' a)
    → Moved x y st ls gs st' ls' gs'
    → Moved x' y' st ls gs st' ls' gs'
same_bytes p q f = record {
  kept = f.kept;
  grown = λ a. omega (arith, f.grown a, p a, q a);
  none_lost = λ a. omega (arith, f.none_lost a, p a, q a);
  outside = λ a out. f.outside a (omega (arith, out, q a));
}

-- The counters are no part of the lists.
pub counted_after :
    (m g : Metrics) {x y : ℕ → ℕ} {st st' : State} {ls gs ls' gs' : Lists}
    → Moved x y st ls gs st' ls' gs'
    → Moved x y st ls gs (record st' { metrics = m; global_metrics = g }) ls' gs'
counted_after m g f = record {
  kept = record {
    local_lists = f.kept.local_lists;
    global_lists = f.kept.global_lists;
    counted = f.kept.counted;
    heads_length = f.kept.heads_length;
    counts_length = f.kept.counts_length;
    free_lists_length = f.kept.free_lists_length;
    locals_length = f.kept.locals_length;
    globals_length = f.kept.globals_length;
    answers_ok = f.kept.answers_ok;
  };
  grown = f.grown;
  none_lost = f.none_lost;
  outside = f.outside;
}

-- A word at the start of a block lies within the block.
pub store64-outside :
    (m : ℕ → ℕ) (b v len a : ℕ) → 8 ≤ len → covers a b len ≡ 0 → store64 m b v a ≡ m a
store64-outside m b v len a p out =
    store64-apart m b v a (λ e. omega (arith, covers_in a b len (omega arith) (omega arith)))
      (λ e. omega (arith, covers_in a b len (omega arith) (omega arith)))

module _ {st : State} {ls gs : Lists} where
  pub push_local-Moved :
      (class block : ℕ)
      → class < num_size_classes
      → IsBlock block
      → free_cover block ls gs ≡ 0
      → length (class_list ls class) < 2 ^ 32
      → Kept st ls gs
      → Moved
          (bytes_of block class)
          nothing
          st
          ls
          gs
          (push_local class block st)
          (set ls class (block ∷ class_list ls class))
          gs
  unfolding push_local
  push_local-Moved class block lt is_block out short kept =
      let len : class < length ls = omega (arith, kept.locals_length) in
      let moves = λ (a : ℕ). lists_cover-set a class ls (block ∷ class_list ls class) len in
      record {
        kept = push_local-Kept class block lt is_block out short kept;
        grown = λ a. omega (arith, moves a);
        none_lost = λ a. omega (arith, moves a);
        outside = λ a none.
            store64-outside st.memory block (head class st) (block_size class) a (omega arith)
              (omega (arith, none, moves a));
      }

  pub pop_local-Moved :
      (class b : ℕ) (bs : List ℕ)
      → class < num_size_classes
      → class_list ls class ≡ b ∷ bs
      → length bs < 2 ^ 32
      → Kept st ls gs
      → (head class st ≡ b)
        × IsBlock b
        × Moved nothing (bytes_of b class) st ls gs (pop_local class st) (set ls class bs) gs
  unfolding pop_local
  pop_local-Moved class b bs lt e short kept =
      let len : class < length ls = omega (arith, kept.locals_length) in
      let (at, is_block, kept') = pop_local-Kept class b bs lt e short kept in
      let moves = λ (a : ℕ). lists_cover-set a class ls bs len in
      let was = λ (a : ℕ). ap (class_cover a class) e in
      (
        at,
        is_block,
        record {
          kept = kept';
          grown = λ a. omega (arith, moves a, was a);
          none_lost = λ a. omega (arith, moves a, was a);
          outside = λ a none. refl;
        },
      )

  -- `pop` of an empty global list.
  pub pop-empty :
      (rounds : List Bool) (class : ℕ)
      → class < num_size_classes
      → Ends rounds
      → class_list gs class ≡ []
      → Kept st ls gs
      → pop rounds class st ≡ some (none, st)
  unfolding pop
  pop-empty [] class lt e empty kept = absurd e
  pop-empty (spurious ∷ rounds) class lt e empty kept =
      let null : free_list class st ≡ 0 =
        subst (Seg st.memory 0 (free_list class st)) empty (kept.global_lists class lt) in
      let test : (free_list class st == 0) ≡ true = ground arith in rw test refl

  -- `pop` takes the first block of a global list, once a swap does not fail for no reason.
  pub pop-first :
      (rounds : List Bool) (class b : ℕ) (bs : List ℕ)
      → class < num_size_classes
      → Ends rounds
      → class_list gs class ≡ b ∷ bs
      → Kept st ls gs
      → (next : ℕ) × (pop rounds class st ≡ some (some b, set_free_list class next st))
        × IsBlock b
        × Moved nothing
            (bytes_of b class)
            st
            ls
            gs
            (set_free_list class next st)
            ls
            (set gs class bs)
  unfolding pop
  pop-first [] class b bs lt e at kept = absurd e
  pop-first (true ∷ rounds) class b bs lt e at kept =
      let seg = subst (Seg st.memory 0 (free_list class st)) at (kept.global_lists class lt) in
      let (here, (pos, _, _), _) = seg in
      let test : (free_list class st == 0) ≡ false = ground arith in
      let same : (free_list class st == free_list class st) ≡ true = ground arith in
      rw (same, test) (pop-first rounds class b bs lt e at kept)
  pop-first (false ∷ rounds) class b bs lt e at kept =
      let seg = subst (Seg st.memory 0 (free_list class st)) at (kept.global_lists class lt) in
      let (here, is_block, rest) = seg in
      let (pos, _, _) = is_block in
      let test : (free_list class st == 0) ≡ false = ground arith in
      let same : (free_list class st == free_list class st) ≡ true = ground arith in
      let len : class < length gs = omega (arith, kept.globals_length) in
      let moves = λ (a : ℕ). lists_cover-set a class gs bs len in
      let was = λ (a : ℕ). ap (class_cover a class) at in
      let next = read_word (free_list class st) st in
      (
        next,
        rw (same, test) (ap (λ (n : ℕ). some (some n, set_free_list class next st)) here),
        is_block,
        record {
          kept = set_free_list-Kept class next bs lt (rw here rest) kept;
          grown = λ a. omega (arith, moves a, was a);
          none_lost = λ a. omega (arith, moves a, was a);
          outside = λ a none. refl;
        },
      )
