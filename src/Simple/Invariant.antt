-- ===== src/Simple/Invariant.antt =====
-- The invariant of the free lists, and what the writes of `push_local` and `pop_local` do to it.
use aethalloc.Prelude.{
  ℕ, suc, ◌+◌, ◌-◌, ◌%◌, ◌^◌, ◌≤◌, ◌<◌, ◌≡◌, subst, ◌∙◌, ap, arith, List, [], ◌∷◌, length,
  length-set, get_or, set, get_or-set_self, get_or-set_ne, inl, inr, ◌≢◌, false, ◌==◌, ==_iff,
  Bool-cases, total_from, total_from-set_first,
}
use aethalloc.Page.{AnswersOk}
use aethalloc.Global.Memory.{num_size_classes}
use aethalloc.Global.Extents.{block_size, blocks_cover}
use aethalloc.Simple.{
  State, head, count, free_list, write_word, push_local, pop_local, set_free_list,
}
use aethalloc.Simple.Chains.{IsBlock, Seg, Seg-store64, Seg-push, Seg-from_lt}

-- The blocks of the lists, those of each class in order.
abbrev pub Lists : Type 0
Lists = List (List ℕ)

abbrev pub class_list : Lists → ℕ → List ℕ
class_list ls class = get_or ls class []

abbrev pub class_cover : (a class : ℕ) → List ℕ → ℕ
class_cover a class = blocks_cover a (block_size class)

abbrev pub lists_cover : ℕ → Lists → ℕ
lists_cover a = total_from (class_cover a) 0

-- The free blocks that an address lies in: of the thread, and of the process.
abbrev pub free_cover : ℕ → (locals globals : Lists) → ℕ
free_cover a locals globals = lists_cover a locals + lists_cover a globals

pub record Kept (st : State) (locals globals : Lists) : Type 0 where
  pub local_lists :
      (c : ℕ) → c < num_size_classes → Seg st.memory 0 (head c st) (class_list locals c)
  pub global_lists :
      (c : ℕ) → c < num_size_classes → Seg st.memory 0 (free_list c st) (class_list globals c)
  pub counted : (c : ℕ) → c < num_size_classes → count c st ≡ length (class_list locals c)
  pub heads_length : length st.heads ≡ num_size_classes
  pub counts_length : length st.counts ≡ num_size_classes
  pub free_lists_length : length st.free_lists ≡ num_size_classes
  pub locals_length : length locals ≡ num_size_classes
  pub globals_length : length globals ≡ num_size_classes
  pub answers_ok : AnswersOk st.os.answers

ne_of_==-eq-false : (a b : ℕ) → (a == b) ≡ false → a ≢ b
ne_of_==-eq-false a b h e = ground arith

-- Where two lists change at one index, what holds of their items at each index is kept.
each-set {ℓ κ} :
    {A : Type ℓ} {B : Type κ} (P : ℕ → A → B → Type 0) (n i : ℕ) (xs : List A) (ys : List B)
    (v d : A) (w e : B)
    → ((c : ℕ) → c < n → P c (get_or xs c d) (get_or ys c e))
    → P i v w
    → i < length xs
    → i < length ys
    → (c : ℕ) → c < n
    → P c (get_or (set xs i v) c d) (get_or (set ys i w) c e)
each-set P n i xs ys v d w e h new p q c lt = elim (Bool-cases (i == c)) [
  | inl same ↦
      subst (λ k. P k (get_or (set xs i v) k d) (get_or (set ys i w) k e)) ((==_iff i c).0 same)
        (rw (get_or-set_self xs i v d p, get_or-set_self ys i w e q) new)
  | inr other ↦
      let ne = ne_of_==-eq-false i c other in
      rw (get_or-set_ne xs i c v d ne, get_or-set_ne ys i c w e ne) (h c lt)
]

pub lists_cover-set :
    (a class : ℕ) (ls : Lists) (xs : List ℕ)
    → class < length ls
    → lists_cover a (set ls class xs) + class_cover a class (class_list ls class)
      ≡ lists_cover a ls + class_cover a class xs
lists_cover-set a class ls xs h = total_from-set_first (class_cover a) ls class xs [] h

pub class_cover-le :
    (a class : ℕ) (ls : Lists)
    → class < length ls
    → class_cover a class (class_list ls class) ≤ lists_cover a ls
class_cover-le a class ls h = omega (arith, lists_cover-set a class ls [] h)

module _ {st : State} {locals globals : Lists} where
  -- A word is written in a block that is in no list.
  pub write_word-Kept :
      (b v : ℕ)
      → b % 16 ≡ 0
      → free_cover b locals globals ≡ 0
      → Kept st locals globals
      → Kept (write_word b v st) locals globals
  write_word-Kept b v p out kept = record {
    local_lists = λ c lt.
        Seg-store64 st.memory b v (block_size c) p (omega arith) 0 (head c st) (class_list locals c)
          (omega (arith, class_cover-le b c locals (omega (arith, kept.locals_length))))
          (kept.local_lists c lt);
    global_lists = λ c lt.
        Seg-store64 st.memory b v (block_size c) p (omega arith) 0 (free_list c st)
          (class_list globals c)
          (omega (arith, class_cover-le b c globals (omega (arith, kept.globals_length))))
          (kept.global_lists c lt);
    counted = kept.counted;
    heads_length = kept.heads_length;
    counts_length = kept.counts_length;
    free_lists_length = kept.free_lists_length;
    locals_length = kept.locals_length;
    globals_length = kept.globals_length;
    answers_ok = kept.answers_ok;
  }

  -- The thread's list of a class becomes another one.
  pub set_local-Kept :
      (class block n : ℕ) (xs : List ℕ)
      → class < num_size_classes
      → n ≡ length xs
      → Seg st.memory 0 block xs
      → Kept st locals globals
      → Kept
          (record st { heads = set st.heads class block; counts = set st.counts class n })
          (set locals class xs)
          globals
  set_local-Kept class block n xs lt e seg kept = record {
    local_lists =
        each-set (λ c h ys. Seg st.memory 0 h ys) num_size_classes class st.heads locals block 0 xs
          [] kept.local_lists seg (omega (arith, kept.heads_length))
          (omega (arith, kept.locals_length));
    global_lists = kept.global_lists;
    counted =
        each-set (λ c k ys. k ≡ length ys) num_size_classes class st.counts locals n 0 xs []
          kept.counted e (omega (arith, kept.counts_length)) (omega (arith, kept.locals_length));
    heads_length = length-set st.heads class block ∙ kept.heads_length;
    counts_length = length-set st.counts class n ∙ kept.counts_length;
    free_lists_length = kept.free_lists_length;
    locals_length = length-set locals class xs ∙ kept.locals_length;
    globals_length = kept.globals_length;
    answers_ok = kept.answers_ok;
  }

  -- The global list of a class becomes another one.
  pub set_free_list-Kept :
      (class block : ℕ) (xs : List ℕ)
      → class < num_size_classes
      → Seg st.memory 0 block xs
      → Kept st locals globals
      → Kept (set_free_list class block st) locals (set globals class xs)
  set_free_list-Kept class block xs lt seg kept = record {
    local_lists = kept.local_lists;
    global_lists =
        each-set (λ c h ys. Seg st.memory 0 h ys) num_size_classes class st.free_lists globals block
          0 xs [] kept.global_lists seg (omega (arith, kept.free_lists_length))
          (omega (arith, kept.globals_length));
    counted = kept.counted;
    heads_length = kept.heads_length;
    counts_length = kept.counts_length;
    free_lists_length = length-set st.free_lists class block ∙ kept.free_lists_length;
    locals_length = kept.locals_length;
    globals_length = length-set globals class xs ∙ kept.globals_length;
    answers_ok = kept.answers_ok;
  }

module _ {st : State} {locals globals : Lists} where
  pub push_local-Kept :
      (class block : ℕ)
      → class < num_size_classes
      → IsBlock block
      → free_cover block locals globals ≡ 0
      → length (class_list locals class) < 2 ^ 32
      → Kept st locals globals
      → Kept
          (push_local class block st)
          (set locals class (block ∷ class_list locals class))
          globals
  unfolding push_local
  push_local-Kept class block lt is_block out short kept =
      let size = block_size class in
      let seg = kept.local_lists class lt in
      let inner = class_cover-le block class locals (omega (arith, kept.locals_length)) in
      set_local-Kept {st = write_word block (head class st) st} class block
        ((count class st + 1) % 2 ^ 64) (block ∷ class_list locals class) lt
        (omega (arith, kept.counted class lt))
        (Seg-push st.memory block size 0 (head class st) (class_list locals class) is_block
          (omega arith) (Seg-from_lt st.memory (head class st) (class_list locals class) seg)
          (omega (arith, inner)) seg)
        (write_word-Kept block (head class st) is_block.1 out kept)

  pub pop_local-Kept :
      (class b : ℕ) (bs : List ℕ)
      → class < num_size_classes
      → class_list locals class ≡ b ∷ bs
      → length bs < 2 ^ 32
      → Kept st locals globals
      → (head class st ≡ b) × IsBlock b × Kept (pop_local class st) (set locals class bs) globals
  unfolding pop_local
  pop_local-Kept class b bs lt e short kept =
      let seg = subst (Seg st.memory 0 (head class st)) e (kept.local_lists class lt) in
      let (at, block, rest) = seg in
      let n : count class st ≡ suc (length bs) = kept.counted class lt ∙ ap length e in
      (
        at,
        block,
        set_local-Kept class _ ((count class st + 2 ^ 64 - 1) % 2 ^ 64) bs lt (omega arith)
            (rw at rest) kept,
      )
