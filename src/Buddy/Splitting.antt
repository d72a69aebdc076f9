-- ===== src/Buddy/Splitting.antt =====
-- What `split` makes of a block.
use aethalloc.Prelude.{
  ℕ, zero, suc, ◌+◌, ◌-◌, ◌^◌, ◌≤◌, ◌<◌, ◌≡◌, ◌∙◌, arith, get_or, get_or-set_self, length,
  length-set,
}
use aethalloc.Buddy.{BuddyAllocator, write_header, split_once, split, min_order, num_orders}

-- A round halves the block and puts its upper half, free and of the same order, on top of its list.
split_once_lem :
    (block current : ℕ) (b : BuddyAllocator)
    → length b.free_lists ≡ num_orders
    → min_order < current
    → current ≤ 18
    → let b' = split_once block current b in
      ((b'.headers block).order ≡ current - 1)
      × (get_or b'.free_lists (current - 1 - min_order) 0 ≡ block + 2 ^ (current - 1))
      × (length b'.free_lists ≡ num_orders)
unfolding split_once write_header
split_once_lem block current b len lo hi = (
  ground arith,
  (let e : current - 1 - 14 ≡ current - 14 - 1 = omega arith in
      rw e (
        get_or-set_self b.free_lists (current - 14 - 1) (block + 2 ^ (current - 1)) 0
          (omega (arith, len)))),
  length-set b.free_lists _ _ ∙ len,
)

-- `split` of a block of order `current` down by `rounds` orders, within the orders of the allocator,
-- lowers its order by as many, and the list of its new order then has its upper half on top.
pub split_lem :
    (rounds block current : ℕ) (b : BuddyAllocator)
    → length b.free_lists ≡ num_orders
    → 0 < rounds
    → min_order + rounds ≤ current
    → current ≤ 18
    → let b' = split rounds block current b in
      ((b'.headers block).order ≡ current - rounds)
      × (get_or b'.free_lists (current - rounds - min_order) 0 ≡ block + 2 ^ (current - rounds))
unfolding split
split_lem zero block current b len pos lo hi = absurd (omega arith)
split_lem (suc zero) block current b len pos lo hi =
    let (order, top, _) = split_once_lem block current b len (omega arith) hi in (order, top)
split_lem (suc (suc rounds)) block current b len pos lo hi =
    let (_, _, len') = split_once_lem block current b len (omega arith) hi in
    let e : current - 1 - suc rounds ≡ current - suc (suc rounds) = omega arith in
    rw e at (
      split_lem (suc rounds) block (current - 1) (split_once block current b) len' (omega arith)
        (omega arith) (omega arith))
