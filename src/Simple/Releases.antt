-- ===== src/Simple/Releases.antt =====
-- A small block that comes back to the thread's list, which is flushed when it has grown long.
use aethalloc.Prelude.{
  [], ℕ, ◌+◌, ◌≤◌, ◌<◌, ◌≡◌, refl, ◌∙◌, ap, arith, Bool, some, List, ◌∷◌, inl, inr, leb, Bool-cases,
  length, length-append, set, get_or-set_self,
}
use aethalloc.Pool.Chains.{Ends}
use aethalloc.Global.Memory.{num_size_classes}
use aethalloc.Global.Extents.{block_size}
use aethalloc.Global.Owners.Headers.{covers_in}
use aethalloc.Simple.{State, count, push_local, maybe_flush}
use aethalloc.Simple.Dealloc.{count_free, dealloc_small, max_free_list_length}
use aethalloc.Simple.Chains.{IsBlock}
use aethalloc.Simple.Invariant.{Lists, class_list, free_cover, Kept}
use aethalloc.Simple.Moves.{Moved, nothing, bytes_of, then_moved, counted_after, push_local-Moved}
use aethalloc.Simple.Batches.{set-SameElsewhere}
use aethalloc.Simple.Serving.{Short, Short-of_class}
use aethalloc.Simple.Flushing.{flush_lem}

-- What a release leaves behind.
pub record Returned (class block : ℕ) (st : State) (ls gs : Lists) (st' : State) : Type 0 where
  pub locals : Lists
  pub globals : Lists
  pub moves : Moved (bytes_of block class) nothing st ls gs st' locals globals
  pub same_os : st'.os ≡ st.os
  pub short : Short locals

pub dealloc_small-Returned :
    (rounds : List Bool) (class block : ℕ) {st : State} {ls gs : Lists}
    → class < num_size_classes
    → Ends rounds
    → IsBlock block
    → Short ls
    → ((a : ℕ) → free_cover a ls gs + bytes_of block class a ≤ 1)
    → Kept st ls gs
    → (st' : State) × (dealloc_small rounds class block st ≡ some st')
      × Returned class block st ls gs st'
unfolding dealloc_small push_local count_free maybe_flush
dealloc_small-Returned rounds class block {st} {ls} {gs} lt e is_block short apart kept =
    let own = covers_in block block (block_size class) (omega arith) (omega arith) in
    let less = short class lt in
    let ls1 = set ls class (block ∷ class_list ls class) in
    let longer : class_list ls1 class ≡ block ∷ class_list ls class =
      get_or-set_self ls class _ [] (omega (arith, kept.locals_length)) in
    let pushed =
      push_local-Moved {st = st} {ls = ls} {gs = gs} class block lt is_block
        (omega (arith, own, apart block)) (omega arith) kept in
    let f = counted_after _ _ pushed in
    let st1 = count_free (push_local class block st) in
    let counted = f.kept.counted class lt in
    elim (Bool-cases (leb max_free_list_length (count class st1))) [
      | inr room ↦ (
        st1,
        rw room refl,
        record {
          locals = ls1;
          globals = gs;
          moves = f;
          same_os = refl;
          short =
              Short-of_class class ls ls1 short (set-SameElsewhere class ls _)
                (ground (arith, counted));
        },
      )
      | inl full ↦
          let (st', got, g) =
            flush_lem rounds class {st = st1} {ls = ls1} {gs = gs} lt e (ground (arith, counted))
              (omega (arith, ap length longer)) (λ a. omega (arith, f.grown a, apart a)) f.kept in
          (
            st',
            rw full got,
            record {
              locals = g.locals;
              globals = g.globals;
              moves = then_moved f g.moves;
              same_os = g.same_os;
              short =
                  Short-of_class class ls g.locals short
                    (λ c ne. g.elsewhere c ne ∙ set-SameElsewhere class ls _ c ne)
                    (omega (
                      arith,
                      ap length g.taken_off,
                      length-append g.batch (class_list g.locals class),
                      g.half,
                      ap length longer,
                    ));
            },
          )
    ]
