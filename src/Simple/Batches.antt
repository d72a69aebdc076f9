-- ===== src/Simple/Batches.antt =====
-- Batches of blocks between the global list and the thread's list of a class.
use aethalloc.Prelude.{
  ℕ, zero, suc, ◌+◌, ◌^◌, ◌≤◌, ◌<◌, ◌≡◌, ◌≢◌, refl, sym, ◌∙◌, ap, arith, Bool, some, List, [], ◌∷◌,
  set, length, get_or-set_self, get_or-set_ne, List-cases, ◌⊎◌, inl, inr,
}
use aethalloc.Pool.Chains.{Ends}
use aethalloc.Global.Memory.{num_size_classes}
use aethalloc.Global.Extents.{block_size}
use aethalloc.Global.Owners.Headers.{covers_in}
use aethalloc.Simple.{State, push_local, pop_batch, set_free_list}
use aethalloc.Simple.Chains.{IsBlock}
use aethalloc.Simple.Invariant.{Lists, class_list, free_cover, Kept}
use aethalloc.Simple.Moves.{
  Moved, nothing, bytes_of, stays, then_moved, push_local-Moved, pop-empty, pop-first,
}

-- The lists of the other classes are the same.
abbrev pub SameElsewhere : ℕ → Lists → Lists → Type 0
SameElsewhere class ls ls' = (c : ℕ) → c ≢ class → class_list ls' c ≡ class_list ls c

pub set-SameElsewhere :
    (class : ℕ) (ls : Lists) (xs : List ℕ) → SameElsewhere class ls (set ls class xs)
set-SameElsewhere class ls xs c ne = get_or-set_ne ls class c xs [] (λ e. ne (sym e))

-- What `pop_batch` does to the lists of its class.
pub record Transferred (class left : ℕ) (st : State) (ls gs : Lists) (moved : ℕ) (st' : State)
    : Type 0 where
  pub locals : Lists
  pub globals : Lists
  pub moves : Moved nothing nothing st ls gs st' locals globals
  pub same_os : st'.os ≡ st.os
  pub elsewhere : SameElsewhere class ls locals
  pub most : moved ≤ left
  pub longer : length (class_list locals class) ≡ length (class_list ls class) + moved
  pub shorter : length (class_list gs class) ≡ length (class_list globals class) + moved
  pub all_or_full : (class_list globals class ≡ []) ⊎ (moved ≡ left)

-- One block on its way from the global list to the thread's.
pub pop_push-Moved :
    (class b next : ℕ) (bs : List ℕ) {st : State} {ls gs : Lists}
    → class < num_size_classes
    → length (class_list ls class) < 2 ^ 32
    → ((a : ℕ) → free_cover a ls gs ≤ 1)
    → IsBlock b
    → Moved nothing (bytes_of b class) st ls gs (set_free_list class next st) ls (set gs class bs)
    → Moved nothing nothing st ls gs
        (push_local class b (set_free_list class next st))
        (set ls class (b ∷ class_list ls class))
        (set gs class bs)
pop_push-Moved class b next bs {st} {ls} {gs} lt short single is_block took =
    let own = covers_in b b (block_size class) (omega arith) (omega arith) in
    then_moved took (
      push_local-Moved {st = set_free_list class next st} class b lt is_block
        (omega (arith, own, took.grown b, single b)) short took.kept)

-- `pop_batch` moves the blocks of a global list one by one to the thread's list of the class, up to
-- the number asked for or to the end of the global list, if the swaps of each call of `pop` do not
-- all fail for no reason.
pub pop_batch_lem :
    (rounds : ℕ → List Bool) (left class : ℕ) {st : State} {ls gs : Lists}
    → ((i : ℕ) → Ends (rounds i))
    → class < num_size_classes
    → length (class_list ls class) + left < 2 ^ 32
    → ((a : ℕ) → free_cover a ls gs ≤ 1)
    → Kept st ls gs
    → (moved : ℕ) × (st' : State) × (pop_batch rounds left class st ≡ some (moved, st'))
      × Transferred class left st ls gs moved st'
unfolding pop_batch push_local
pop_batch_lem rounds zero class {st} {ls} {gs} ends lt short single kept = (
  0,
  st,
  refl,
  record {
    locals = ls;
    globals = gs;
    moves = stays kept;
    same_os = refl;
    elsewhere = λ c ne. refl;
    most = omega arith;
    longer = omega arith;
    shorter = omega arith;
    all_or_full = inr refl;
  },
)
pop_batch_lem rounds (suc left) class {st} {ls} {gs} ends lt short single kept =
    elim (List-cases (class_list gs class)) [
      | inl empty ↦ (
        0,
        st,
        rw (pop-empty (rounds left) class lt (ends left) empty kept) refl,
        record {
          locals = ls;
          globals = gs;
          moves = stays kept;
          same_os = refl;
          elsewhere = λ c ne. refl;
          most = omega arith;
          longer = omega arith;
          shorter = omega arith;
          all_or_full = inl empty;
        },
      )
      | inr (b, bs, full) ↦
          let (next, got, is_block, took) =
            pop-first (rounds left) class b bs lt (ends left) full kept in
          let step =
            pop_push-Moved class b next bs {st = st} {ls = ls} {gs = gs} lt (omega arith) single
              is_block took in
          let ls1 = set ls class (b ∷ class_list ls class) in
          let longer1 : class_list ls1 class ≡ b ∷ class_list ls class =
            get_or-set_self ls class _ [] (omega (arith, kept.locals_length)) in
          let shorter1 : class_list (set gs class bs) class ≡ bs =
            get_or-set_self gs class bs [] (omega (arith, kept.globals_length)) in
          let (moved, st', e, t) =
            pop_batch_lem rounds left class {st = push_local class b (set_free_list class next st)}
              {ls = ls1} {gs = set gs class bs} ends lt (omega (arith, ap length longer1))
              (λ a. omega (arith, single a, step.grown a)) step.kept in
          (
            suc moved,
            st',
            rw (got, e) refl,
            record {
              locals = t.locals;
              globals = t.globals;
              moves = then_moved step t.moves;
              same_os = t.same_os;
              elsewhere = λ c ne. t.elsewhere c ne ∙ set-SameElsewhere class ls _ c ne;
              most = omega (arith, t.most);
              longer = omega (arith, t.longer, ap length longer1);
              shorter = omega (arith, t.shorter, ap length shorter1, ap length full);
              all_or_full = elim t.all_or_full [
                | inl none_left ↦ inl none_left
                | inr all ↦ inr (ap suc all)
              ];
            },
          )
    ]
