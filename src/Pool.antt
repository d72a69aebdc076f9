-- ===== src/Pool.antt =====
-- aethalloc-core/src/global_pool.rs, and the two stacks of `GlobalMagazinePool` in magazine.rs: stacks
-- of nodes that are linked through a word of each node, changed by compare-and-swap of the head.
pub mod Chains
pub mod Threads
pub mod Conserved
pub mod Histories
use aethalloc.Prelude.{
  ℕ, zero, suc, ◌+◌, ◌<◌, Bool, true, false, Option, none, some, List, [], ◌∷◌, ◌&&◌, not, ltb,
  ◌==◌, if◌then◌else◌, length, get_or, set, replicate, ◌>>=◌,
}

-- The head of a stack, and the link words of all nodes.
pub record Stack : Type 0 where
  pub head : ℕ
  pub links : ℕ → ℕ

abbrev pub write_link : (links : ℕ → ℕ) (node next : ℕ) → ℕ → ℕ
write_link links node next a = if a == node then next else links a

-- `(*link).next = old_head`
unfoldable pub store_next : (node old : ℕ) → Stack → Stack
store_next node old s = record s { links = write_link s.links node old }

-- `compare_exchange_weak` on the head; it may fail for no reason, which `spurious` says.
unfoldable pub swap_head : (spurious : Bool) (old new : ℕ) → Stack → Bool × Stack
swap_head spurious old new s =
    if (s.head == old) && not spurious then (true, record s { head = new }) else (false, s)

-- The loop of `push`, run by one thread alone: the list says of each round whether the swap fails for
-- no reason. `none` is a loop that has not ended.
unfoldable pub push : List Bool → (node : ℕ) → Stack → Option Stack
unfolding store_next swap_head
push [] node s = none
push (spurious ∷ rounds) node s =
    let old = s.head in
    let (done, s') = swap_head spurious old node (store_next node old s) in
    let again = push rounds node s' in if done then some s' else again

-- The loop of `pop`; the answer is none for an empty stack.
unfoldable pub pop : List Bool → Stack → Option (Option ℕ × Stack)
unfolding swap_head
pop [] s = none
pop (spurious ∷ rounds) s =
    let again = pop rounds s in
    if s.head == 0
    then some (none, s)
    else (let (done, s') = swap_head spurious s.head (s.links s.head) s in
        if done then some (some s.head, s') else again)

-- The stacks of `GlobalPools`, one for each size class.
pub record GlobalPools : Type 0 where
  pub heads : List ℕ
  pub links : ℕ → ℕ

abbrev num_size_classes : ℕ
num_size_classes = 16

unfoldable pub new_pools : (ℕ → ℕ) → GlobalPools
new_pools links = record { heads = replicate num_size_classes 0; links = links }

unfoldable pub get_pool : ℕ → GlobalPools → Option Stack
get_pool class p =
    if ltb class (length p.heads)
    then some (record { head = get_or p.heads class 0; links = p.links })
    else none

unfoldable pub push_class : List Bool → (class node : ℕ) → GlobalPools → Option GlobalPools
unfolding get_pool push
push_class rounds class node p = elim (get_pool class p) [
  | none ↦ some p
  | some s ↦ do
    s' ← push rounds node s
    some (record { heads = set p.heads class s'.head; links = s'.links })
]

unfoldable pub pop_class : List Bool → ℕ → GlobalPools → Option (Option ℕ × GlobalPools)
unfolding get_pool pop
pop_class rounds class p = elim (get_pool class p) [
  | none ↦ some (none, p)
  | some s ↦ do
    r ← pop rounds s
    some (r.0, record { heads = set p.heads class r.1.head; links = r.1.links })
]

-- The two stacks of a pool of magazines share the link words of the nodes.
pub record MagazineStacks : Type 0 where
  pub full_head : ℕ
  pub empty_head : ℕ
  pub next : ℕ → ℕ

abbrev full_stack : MagazineStacks → Stack
full_stack p = record { head = p.full_head; links = p.next }

abbrev empty_stack : MagazineStacks → Stack
empty_stack p = record { head = p.empty_head; links = p.next }

unfoldable pub push_full : List Bool → (node : ℕ) → MagazineStacks → Option MagazineStacks
unfolding push
push_full rounds node p = do
  s ← push rounds node (full_stack p)
  some (record p { full_head = s.head; next = s.links })

unfoldable pub pop_full : List Bool → MagazineStacks → Option (Option ℕ × MagazineStacks)
unfolding pop
pop_full rounds p = do
  r ← pop rounds (full_stack p)
  some (r.0, record p { full_head = r.1.head; next = r.1.links })

unfoldable pub push_empty : List Bool → (node : ℕ) → MagazineStacks → Option MagazineStacks
unfolding push
push_empty rounds node p = do
  s ← push rounds node (empty_stack p)
  some (record p { empty_head = s.head; next = s.links })

unfoldable pub pop_empty : List Bool → MagazineStacks → Option (Option ℕ × MagazineStacks)
unfolding pop
pop_empty rounds p = do
  r ← pop rounds (empty_stack p)
  some (r.0, record p { empty_head = r.1.head; next = r.1.links })

-- The nodes from `current` on, counted up to `left` of them.
unfoldable pub depth_from : (links : ℕ → ℕ) (left current : ℕ) → ℕ
depth_from links zero current = 0
depth_from links (suc left) current =
    let rest = depth_from links left (links current) in if current == 0 then 0 else suc rest

abbrev pub max_global_magazines_per_class : ℕ
max_global_magazines_per_class = 8

unfoldable pub full_depth : MagazineStacks → ℕ
unfolding depth_from
full_depth p = depth_from p.next (max_global_magazines_per_class + 1) p.full_head
