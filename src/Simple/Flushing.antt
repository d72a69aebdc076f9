-- ===== src/Simple/Flushing.antt =====
-- The first half of a long list of the thread goes to the global list.
use mathlib.Core.List.{append_assoc}
use aethalloc.Prelude.{
  ℕ, zero, suc, ◌+◌, ◌-◌, ◌/◌, ◌%◌, ◌^◌, ◌≤◌, ◌<◌, ◌≡◌, refl, sym, ◌∙◌, ap, subst, arith, Bool,
  true, false, some, List, [], ◌∷◌, ◌++◌, ◌==◌, inl, inr, Bool-cases, length, length-append, set,
  get_or-set_self, total-append,
}
use aethalloc.Pool.Chains.{Ends}
use aethalloc.Page.{Os}
use aethalloc.Global.Memory.{num_size_classes, load64}
use aethalloc.Global.Extents.{covers, block_size, blocks_cover, mapped}
use aethalloc.Global.Owners.Headers.{covers_in}
use aethalloc.Simple.{
  State, head, count, free_list, set_free_list, write_word, read_word, push_batch,
}
use aethalloc.Simple.Dealloc.{walk, flush, flush_to}
use aethalloc.Simple.Chains.{Seg, Seg-from_lt, Seg-join, Seg-split, Seg-relink, split_at}
use aethalloc.Simple.Invariant.{
  Lists, class_list, class_cover, class_cover-le, lists_cover-set, free_cover, Kept,
  write_word-Kept, set_local-Kept, set_free_list-Kept,
}
use aethalloc.Simple.Moves.{Moved, nothing, store64-outside}
use aethalloc.Simple.Batches.{SameElsewhere, set-SameElsewhere}

-- The walk along a list ends at the block that so many others precede.
walk-Seg :
    (k : ℕ) (st : State) (end from z : ℕ) (ys zs : List ℕ)
    → length ys ≡ k
    → Seg st.memory end from (ys ++ z ∷ zs)
    → walk k from st ≡ z
unfolding walk
walk-Seg zero st end from z [] zs n seg = seg.0
walk-Seg zero st end from z (y ∷ ys) zs n seg = absurd (omega arith)
walk-Seg (suc k) st end from z [] zs n seg = absurd (omega arith)
walk-Seg (suc k) st end from z (y ∷ ys) zs n seg =
    let (at, (pos, _, _), rest) = seg in
    let test : (from == 0) ≡ false = ground arith in
    rw (test, at) (walk-Seg k st end (load64 st.memory y) z ys zs (omega arith) rest)

-- A batch that is linked in memory and in no list comes to be the first part of the global list.
pub push_batch_lem :
    (rounds : List Bool) (class batch_head z end : ℕ) (ys : List ℕ) {st : State} {ls gs : Lists}
    → class < num_size_classes
    → Ends rounds
    → z % 16 ≡ 0
    → blocks_cover z (block_size class) ys ≡ 0
    → free_cover z ls gs ≡ 0
    → Seg st.memory end batch_head (ys ++ z ∷ [])
    → Kept st ls gs
    → (st' : State) × (push_batch rounds class batch_head z st ≡ some st')
      × Kept st' ls (set gs class ((ys ++ z ∷ []) ++ class_list gs class))
      × (st'.os ≡ st.os)
      × ((a : ℕ) → covers a z (block_size class) ≡ 0 → st'.memory a ≡ st.memory a)
unfolding push_batch
push_batch_lem [] class batch_head z end ys lt e aligned inner out seg kept = absurd e
push_batch_lem (spurious ∷ rounds) class batch_head z end ys {st} {ls} {gs} lt e aligned inner out
      seg kept =
    let len = block_size class in
    let current = free_list class st in
    let same : (current == current) ≡ true = ground arith in
    let fits = Seg-from_lt st.memory current (class_list gs class) (kept.global_lists class lt) in
    let st1 = write_word z current st in
    let kept1 = write_word-Kept z current aligned out kept in
    let seg1 =
      Seg-relink st.memory len end batch_head current z ys (omega arith) fits aligned inner seg in
    let apart = λ (a : ℕ) (h : covers a z len ≡ 0).
      store64-outside st.memory z current len a (omega arith) h in
    elim (Bool-cases spurious) [
      | inl again ↦
          let (st', got, kept', os, out') =
            push_batch_lem rounds class batch_head z current ys {st = st1} {ls = ls} {gs = gs} lt
              (subst (λ s. Ends (s ∷ rounds)) again e) aligned inner out seg1 kept1 in
          (st', rw (same, again) got, kept', os, λ a h. out' a h ∙ apart a h)
      | inr now ↦
          let joined =
            Seg-join st1.memory 0 current batch_head (ys ++ z ∷ []) (class_list gs class) seg1
              (kept1.global_lists class lt) in
          (
            set_free_list class batch_head st1,
            rw (same, now) refl,
            set_free_list-Kept class batch_head _ lt joined kept1,
            refl,
            apart,
          )
    ]

-- What a flush does with the list of its class.
pub record Flushed (class : ℕ) (st : State) (ls gs : Lists) (st' : State) : Type 0 where
  pub batch : List ℕ
  pub locals : Lists
  pub globals : Lists
  pub moves : Moved nothing nothing st ls gs st' locals globals
  pub same_os : st'.os ≡ st.os
  pub elsewhere : SameElsewhere class ls locals
  pub half : length batch ≡ length (class_list ls class) / 2
  pub taken_off : class_list ls class ≡ batch ++ class_list locals class
  pub put_on : class_list globals class ≡ batch ++ class_list gs class

cover_apart :
    (z class : ℕ) (ys zs : List ℕ)
    → class_cover z class (ys ++ z ∷ zs) ≤ 1
    → (class_cover z class ys ≡ 0) × (class_cover z class zs ≡ 0)
cover_apart z class ys zs h =
    let len = block_size class in
    let sum = total-append (λ (b : ℕ). covers z b len) ys (z ∷ zs) in
    let own = covers_in z z len (omega arith) (omega arith) in
    (omega (arith, sum, own), omega (arith, sum, own))

-- The flush, with the last block of the batch known.
flush_at :
    (rounds : List Bool) (class z : ℕ) (ys zs : List ℕ) {st : State} {ls gs : Lists}
    → class < num_size_classes
    → Ends rounds
    → class_list ls class ≡ ys ++ z ∷ zs
    → length ys ≡ length (class_list ls class) / 2 - 1
    → 2 ≤ length (class_list ls class)
    → length (class_list ls class) < 2 ^ 32
    → ((a : ℕ) → free_cover a ls gs ≤ 1)
    → Kept st ls gs
    → (st' : State) × (flush_to rounds class (count class st / 2) z st ≡ some st')
      × Flushed class st ls gs st'
unfolding flush_to
flush_at rounds class z ys zs {st} {ls} {gs} lt e whole len_ys two short single kept =
    let xs = class_list ls class in
    let len = block_size class in
    let n = kept.counted class lt in
    let here : class < length ls = omega (arith, kept.locals_length) in
    let there : class < length gs = omega (arith, kept.globals_length) in
    let seg = subst (Seg st.memory 0 (head class st)) whole (kept.local_lists class lt) in
    let (is_block, left, right) = Seg-split st.memory 0 (head class st) z ys zs seg in
    let (pos, aligned, _) = is_block in
    let some_tail : (z == 0) ≡ false = ground arith in
    let batch = ys ++ z ∷ [] in
    let parts : xs ≡ batch ++ zs = whole ∙ sym (append_assoc ys (z ∷ []) zs) in
    let cover = λ (a : ℕ).
      ap (class_cover a class) parts ∙ total-append (λ (b : ℕ). covers a b len) batch zs in
    let ends_in = λ (a : ℕ). total-append (λ (b : ℕ). covers a b len) ys (z ∷ []) in
    let own = covers_in z z len (omega arith) (omega arith) in
    let (apart_ys, apart_zs) =
      cover_apart z class ys zs
        (omega (arith, class_cover-le z class ls here, single z, ap (class_cover z class) whole)) in
    let ls' = set ls class zs in
    let gs' = set gs class (batch ++ class_list gs class) in
    let off = λ (a : ℕ). lists_cover-set a class ls zs here in
    let on = λ (a : ℕ). lists_cover-set a class gs (batch ++ class_list gs class) there in
    let both = λ (a : ℕ). total-append (λ (b : ℕ). covers a b len) batch (class_list gs class) in
    let left_over = (count class st + 2 ^ 64 - count class st / 2) % 2 ^ 64 in
    let sizes = length-append batch zs in
    let kept1 =
      set_local-Kept class (read_word z st) left_over zs lt
        (omega (
          arith,
          n,
          ap length parts,
          length-append ys (z ∷ zs),
          length-append ys (z ∷ []),
          sizes,
          len_ys,
        ))
        right kept in
    let out : free_cover z ls' gs ≡ 0 = omega (arith, off z, cover z, ends_in z, own, single z) in
    let kept2 = write_word-Kept z 0 aligned out kept1 in
    let linked =
      Seg-relink st.memory len _ (head class st) 0 z ys (omega arith) (omega arith) aligned apart_ys
        left in
    let (st', got, kept3, os, same) =
      push_batch_lem rounds class (head class st) z 0 ys lt e aligned apart_ys out linked kept2 in
    let first =
      λ (a : ℕ) (h : covers a z len ≡ 0). store64-outside st.memory z 0 len a (omega arith) h in
    (
      st',
      rw some_tail got,
      record {
        batch = batch;
        locals = ls';
        globals = gs';
        moves = record {
          kept = kept3;
          grown = λ a.
              omega (arith, off a, on a, both a, cover a, ap (λ (o : Os). mapped a o.calls) os);
          none_lost = λ a. omega (arith, off a, on a, both a, cover a);
          outside = λ a none.
              let away : covers a z len ≡ 0 =
                omega (arith, none, off a, on a, both a, cover a, ends_in a) in
              same a away ∙ first a away;
        };
        same_os = os;
        elsewhere = set-SameElsewhere class ls zs;
        half = omega (arith, length-append ys (z ∷ []), len_ys);
        taken_off = rw (get_or-set_self ls class zs [] here) parts;
        put_on = get_or-set_self gs class _ [] there;
      },
    )

-- The first half of a list of at least two blocks comes to be the first part of the global list, in
-- the same order, if the swaps do not all fail for no reason.
pub flush_lem :
    (rounds : List Bool) (class : ℕ) {st : State} {ls gs : Lists}
    → class < num_size_classes
    → Ends rounds
    → 2 ≤ length (class_list ls class)
    → length (class_list ls class) < 2 ^ 32
    → ((a : ℕ) → free_cover a ls gs ≤ 1)
    → Kept st ls gs
    → (st' : State) × (flush rounds class st ≡ some st') × Flushed class st ls gs st'
unfolding flush
flush_lem rounds class {st} {ls} {gs} lt e two short single kept =
    let xs = class_list ls class in
    let (ys, z, zs, whole, len_ys) = split_at (length xs / 2 - 1) xs (omega arith) in
    let (block, left, right) =
      Seg-split st.memory 0 (head class st) z ys zs
        (subst (Seg st.memory 0 (head class st)) whole (kept.local_lists class lt)) in
    let at : walk (count class st / 2 - 1) (head class st) st ≡ z =
      walk-Seg (count class st / 2 - 1) st 0 (head class st) z ys zs
        (omega (arith, len_ys, kept.counted class lt))
        (subst (Seg st.memory 0 (head class st)) whole (kept.local_lists class lt)) in
    rw at (
      flush_at rounds class z ys zs {st = st} {ls = ls} {gs = gs} lt e whole len_ys two short single
        kept)
