-- ===== src/Pool/Chains.antt =====
-- A stack as the list of its nodes, and the loops run by one thread alone.
use aethalloc.Prelude.{
  ℕ, zero, suc, ◌≡◌, ◌≢◌, refl, ap, arith, Bool, true, false, Option, none, some, List, [], ◌∷◌,
  ◌==◌, if◌then◌else◌, total, length, min,
}
use aethalloc.Pool.{Stack, write_link, store_next, swap_head, push, pop, depth_from}

-- How often a node occurs.
abbrev pub one_of : ℕ → ℕ → ℕ
one_of a x = if x == a then 1 else 0

abbrev pub count : ℕ → List ℕ → ℕ
count a = total (one_of a)

-- From the head the links lead through the nodes of the list, and end with null.
abbrev pub Chain : (links : ℕ → ℕ) → (head : ℕ) → List ℕ → Type 0
Chain links head [] = head ≡ 0
Chain links head (x ∷ xs) = (head ≡ x) × (x ≢ 0) × Chain links (links x) xs

pub one_of_self : (a : ℕ) → one_of a a ≡ 1
one_of_self a = ground arith

-- A write to the link of a node that is not in the chain.
pub Chain-write_link :
    (links : ℕ → ℕ) (node v head : ℕ) (xs : List ℕ)
    → count node xs ≡ 0
    → Chain links head xs
    → Chain (write_link links node v) head xs
Chain-write_link links node v head [] apart c = c
Chain-write_link links node v head (x ∷ xs) apart c =
    let other : (x == node) ≡ false = ground arith in
    let (at, some_node, rest) = c in
    (at, some_node, rw other (Chain-write_link links node v (links x) xs (omega arith) rest))

-- Some round does not fail for no reason.
abbrev pub Ends : List Bool → Type 0
Ends [] = ⊥
Ends (true ∷ rounds) = Ends rounds
Ends (false ∷ rounds) = Unit {0}

-- A node that is pushed alone comes to be the first of the stack, once a swap does not fail for no reason.
pub push-Chain :
    (rounds : List Bool) (node : ℕ) (s : Stack) (xs : List ℕ)
    → Ends rounds
    → node ≢ 0
    → count node xs ≡ 0
    → Chain s.links s.head xs
    → (s' : Stack) × (push rounds node s ≡ some s') × Chain s'.links s'.head (node ∷ xs)
unfolding push store_next swap_head
push-Chain [] node s xs e p apart c = absurd e
push-Chain (false ∷ rounds) node s xs e p apart c =
    let same : (s.head == s.head) ≡ true = ground arith in
    let own : (node == node) ≡ true = ground arith in
    let kept = Chain-write_link s.links node s.head s.head xs apart c in
    (
      record { head = node; links = write_link s.links node s.head },
      rw same refl,
      (refl, p, rw own kept),
    )
push-Chain (true ∷ rounds) node s xs e p apart c =
    let same : (s.head == s.head) ≡ true = ground arith in
    rw same (
      push-Chain rounds node (record s { links = write_link s.links node s.head }) xs e p apart
        (Chain-write_link s.links node s.head s.head xs apart c))

-- The first node of a list, and the others.
abbrev pub first : List ℕ → Option ℕ
first [] = none
first (x ∷ xs) = some x

abbrev pub rest : List ℕ → List ℕ
rest [] = []
rest (x ∷ xs) = xs

-- `pop` alone answers the first node of the stack and leaves the others, or answers none for an empty
-- stack, once a swap does not fail for no reason.
pub pop-Chain :
    (rounds : List Bool) (s : Stack) (xs : List ℕ)
    → Ends rounds
    → Chain s.links s.head xs
    → (s' : Stack) × (pop rounds s ≡ some (first xs, s')) × Chain s'.links s'.head (rest xs)
unfolding pop swap_head
pop-Chain [] s xs e c = absurd e
pop-Chain (spurious ∷ rounds) s [] e c =
    let empty : (s.head == 0) ≡ true = ground arith in (s, rw empty refl, c)
pop-Chain (false ∷ rounds) s (x ∷ xs) e c =
    let (at, some_node, more) = c in
    let full : (s.head == 0) ≡ false = ground arith in
    let same : (s.head == s.head) ≡ true = ground arith in
    (
      record s { head = s.links s.head },
      rw (full, same) (ap (λ (n : ℕ). some (some n, record s { head = s.links s.head })) at),
      rw at more,
    )
pop-Chain (true ∷ rounds) s (x ∷ xs) e c =
    let (at, some_node, more) = c in
    let full : (s.head == 0) ≡ false = ground arith in
    let same : (s.head == s.head) ≡ true = ground arith in
    rw (full, same) (pop-Chain rounds s (x ∷ xs) e c)

-- The depth that is counted is the number of nodes, up to the bound.
pub depth_from-Chain :
    (links : ℕ → ℕ) (left current : ℕ) (xs : List ℕ)
    → Chain links current xs
    → depth_from links left current ≡ min left (length xs)
unfolding depth_from
depth_from-Chain links zero current xs c = omega arith
depth_from-Chain links (suc left) current [] c =
    let empty : (current == 0) ≡ true = ground arith in rw empty (omega arith)
depth_from-Chain links (suc left) current (x ∷ xs) c =
    let (at, some_node, more) = c in
    let full : (current == 0) ≡ false = ground arith in
    rw (full, at) (omega (arith, depth_from-Chain links left (links x) xs more))
