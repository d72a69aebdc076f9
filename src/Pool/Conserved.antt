-- ===== src/Pool/Conserved.antt =====
-- The invariant of a stack that many threads work on.
use aethalloc.Prelude.{
  ℕ, ◌+◌, ◌≤◌, ◌<◌, ◌≡◌, ◌≢◌, ap, arith, Bool, true, false, List, [], ◌∷◌, ◌++◌, ◌==◌, ◌&&◌, not,
  All, total, total-append, Bool-cases, inl, inr,
}
use aethalloc.Pool.{Stack, store_next, swap_head}
use aethalloc.Pool.Chains.{one_of, one_of_self, count, Chain}
use aethalloc.Pool.Threads.{
  Pushing, loaded, linked, Popping, idle, loaded_head, read_next, System, node_of, outside,
}

-- What a thread inside `push` knows.
abbrev pub Links : Stack → Pushing → Type 0
Links s (loaded node old) = Unit {0}
Links s (linked node old) = s.links node ≡ old

-- What the thread inside `pop` knows: the node is still in the stack, with the link that was read.
abbrev pub Pops : Stack → List ℕ → Popping → Type 0
Pops s xs idle = Unit {0}
Pops s xs (loaded_head head) = 0 < count head xs
Pops s xs (read_next head next) = (0 < count head xs) × (s.links head ≡ next)

pub record Intact (nodes : List ℕ) (s : System) : Type 0 where
  pub held : List ℕ
  pub chain : Chain s.stack.links s.stack.head held
  pub kept : (a : ℕ) → count a held + outside a s ≡ count a nodes
  pub links : All (Links s.stack) s.pushing
  pub pops : Pops s.stack held s.popping

-- The nodes are different, and none is null.
pub record Distinct (nodes : List ℕ) : Type 0 where
  pub once : (a : ℕ) → count a nodes ≤ 1
  pub not_null : count 0 nodes ≡ 0

pub swapped :
    (spurious : Bool) (old new : ℕ) (s s' : Stack)
    → swap_head spurious old new s ≡ (true, s')
    → (s.head ≡ old) × (record s { head = new } ≡ s')
unfolding swap_head
swapped spurious old new s s' e = elim (Bool-cases ((s.head == old) && not spurious)) [
  | inl done ↦ (ground arith, ap (λ (r : Bool × Stack). r.1) (rw done at e))
  | inr failed ↦ absurd (cc (ap (λ (r : Bool × Stack). r.0) (rw failed at e)))
]

pub not_swapped :
    (spurious : Bool) (old new : ℕ) (s s' : Stack)
    → swap_head spurious old new s ≡ (false, s')
    → s ≡ s'
unfolding swap_head
not_swapped spurious old new s s' e = elim (Bool-cases ((s.head == old) && not spurious)) [
  | inl done ↦ absurd (cc (ap (λ (r : Bool × Stack). r.0) (rw done at e)))
  | inr failed ↦ ap (λ (r : Bool × Stack). r.1) (rw failed at e)
]

abbrev pub in_push : ℕ → List Pushing → ℕ
in_push a = total (λ p. one_of a (node_of p))

pub count-append : (a : ℕ) (xs ys : List ℕ) → count a (xs ++ ys) ≡ count a xs + count a ys
count-append a xs ys = total-append (one_of a) xs ys

pub in_push-append :
    (a : ℕ) (ps qs : List Pushing) → in_push a (ps ++ qs) ≡ in_push a ps + in_push a qs
in_push-append a ps qs = total-append (λ (p : Pushing). one_of a (node_of p)) ps qs

-- What the other threads know outlasts a write to the link of a node that is not theirs.
pub All-Links-store_next :
    (node v : ℕ) (s : Stack) (ps : List Pushing)
    → in_push node ps ≡ 0
    → All (Links s) ps
    → All (Links (store_next node v s)) ps
unfolding store_next
All-Links-store_next node v s [] apart ok = tt
All-Links-store_next node v s (loaded n old ∷ ps) apart ok =
    (tt, All-Links-store_next node v s ps (omega arith) ok.1)
All-Links-store_next node v s (linked n old ∷ ps) apart ok =
    let other : (n == node) ≡ false = ground arith in
    (rw other ok.0, All-Links-store_next node v s ps (omega arith) ok.1)

pub Pops-store_next :
    (node v : ℕ) (s : Stack) (xs : List ℕ) (q : Popping)
    → count node xs ≡ 0
    → Pops s xs q
    → Pops (store_next node v s) xs q
unfolding store_next
Pops-store_next node v s xs idle apart ok = tt
Pops-store_next node v s xs (loaded_head head) apart ok = ok
Pops-store_next node v s xs (read_next head next) apart ok = elim (Bool-cases (head == node)) [
  | inl same ↦
      let e : head ≡ node = ground arith in
      absurd (omega (arith, ap (λ (n : ℕ). count n xs) e, ok.0))
  | inr other ↦ (ok.0, rw other ok.1)
]

-- A node more in the stack.
pub Pops-more :
    (s : Stack) (node h : ℕ) (xs : List ℕ) (q : Popping)
    → Pops s xs q
    → Pops (record s { head = h }) (node ∷ xs) q
Pops-more s node h xs idle ok = tt
Pops-more s node h xs (loaded_head head) ok = omega arith
Pops-more s node h xs (read_next head next) ok = (omega (arith, ok.0), ok.1)

pub load_pop-Pops :
    (s : Stack) (xs : List ℕ) → s.head ≢ 0 → Chain s.links s.head xs → 0 < count s.head xs
load_pop-Pops s [] full c = absurd (full c)
load_pop-Pops s (x ∷ xs) full c = rw (c.0) (omega (arith, one_of_self x))
