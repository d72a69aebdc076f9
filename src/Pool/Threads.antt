-- ===== src/Pool/Threads.antt =====
-- Several threads on one stack of global_pool.rs, each step of theirs one access to a shared word. Any
-- number of threads push at a time. At most one thread pops at a time: two would be open to the head
-- coming back with another link behind it.
use aethalloc.Prelude.{ℕ, ◌+◌, ◌≡◌, ◌≢◌, Bool, true, false, List, [], ◌∷◌, ◌++◌, total}
use aethalloc.Pool.{Stack, store_next, swap_head}
use aethalloc.Pool.Chains.{one_of, count}

-- A thread inside `push`: it has loaded the head, or has stored it as the link of its node too.
pub data Pushing : Type 0 where
  loaded linked : (node old : ℕ) → Pushing

-- The thread inside `pop`, if one is: it has loaded the head, or has read the link behind it too.
pub data Popping : Type 0 where
  idle : Popping
  loaded_head : (head : ℕ) → Popping
  read_next : (head next : ℕ) → Popping

-- The nodes that are in no stack and in no push are free.
pub record System : Type 0 where
  pub stack : Stack
  pub pushing : List Pushing
  pub popping : Popping
  pub free : List ℕ

abbrev pub node_of : Pushing → ℕ
node_of (loaded node old) = node
node_of (linked node old) = node

pub data Move : System → System → Type 0 where
  load_push :
      (left : List ℕ) (node : ℕ) (right : List ℕ) {s : Stack} {ps : List Pushing} {q : Popping}
      → Move
          (record { stack = s; pushing = ps; popping = q; free = left ++ node ∷ right })
          (record {
            stack = s;
            pushing = loaded node s.head ∷ ps;
            popping = q;
            free = left ++ right;
          })
  link_push :
      (left : List Pushing) (node old : ℕ) (right : List Pushing) {s : Stack} {q : Popping}
      {free : List ℕ}
      → Move
          (record {
            stack = s;
            pushing = left ++ loaded node old ∷ right;
            popping = q;
            free = free;
          })
          (record {
            stack = store_next node old s;
            pushing = left ++ linked node old ∷ right;
            popping = q;
            free = free;
          })
  swap_push :
      (left : List Pushing) (node old : ℕ) (right : List Pushing) (spurious : Bool) {s s' : Stack}
      {q : Popping} {free : List ℕ}
      → swap_head spurious old node s ≡ (true, s')
      → Move
          (record {
            stack = s;
            pushing = left ++ linked node old ∷ right;
            popping = q;
            free = free;
          })
          (record { stack = s'; pushing = left ++ right; popping = q; free = free })
  retry_push :
      (left : List Pushing) (node old : ℕ) (right : List Pushing) (spurious : Bool) {s s' : Stack}
      {q : Popping} {free : List ℕ}
      → swap_head spurious old node s ≡ (false, s')
      → Move
          (record {
            stack = s;
            pushing = left ++ linked node old ∷ right;
            popping = q;
            free = free;
          })
          (record {
            stack = s';
            pushing = left ++ loaded node s'.head ∷ right;
            popping = q;
            free = free;
          })
  load_pop :
      {s : Stack} {ps : List Pushing} {free : List ℕ}
      → s.head ≢ 0
      → Move
          (record { stack = s; pushing = ps; popping = idle; free = free })
          (record { stack = s; pushing = ps; popping = loaded_head s.head; free = free })
  read_pop :
      (head : ℕ) {s : Stack} {ps : List Pushing} {free : List ℕ}
      → Move
          (record { stack = s; pushing = ps; popping = loaded_head head; free = free })
          (record { stack = s; pushing = ps; popping = read_next head (s.links head); free = free })
  swap_pop :
      (head next : ℕ) (spurious : Bool) {s s' : Stack} {ps : List Pushing} {free : List ℕ}
      → swap_head spurious head next s ≡ (true, s')
      → Move
          (record { stack = s; pushing = ps; popping = read_next head next; free = free })
          (record { stack = s'; pushing = ps; popping = idle; free = head ∷ free })
  retry_pop :
      (head next : ℕ) (spurious : Bool) {s s' : Stack} {ps : List Pushing} {free : List ℕ}
      → swap_head spurious head next s ≡ (false, s')
      → Move
          (record { stack = s; pushing = ps; popping = read_next head next; free = free })
          (record { stack = s'; pushing = ps; popping = idle; free = free })

-- All that can be reached from an empty stack and the given free nodes.
pub data History (nodes : List ℕ) : System → Type 0 where
  opened :
      (links : ℕ → ℕ)
      → History nodes (record {
        stack = record { head = 0; links = links };
        pushing = [];
        popping = idle;
        free = nodes;
      })
  moved : {s s' : System} → History nodes s → Move s s' → History nodes s'

-- How often a node is free or in a push.
abbrev pub outside : ℕ → System → ℕ
outside a s = count a s.free + total (λ p. one_of a (node_of p)) s.pushing
