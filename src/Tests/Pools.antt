-- ===== src/Tests/Pools.antt =====
-- Stacks of two nodes, and what two threads inside `pop` at a time do to one.
use aethalloc.Prelude.{
  ℕ, ◌+◌, ◌≡◌, refl, arith, Bool, true, false, List, [], ◌∷◌, ◌==◌, if◌then◌else◌, min, length,
}
use aethalloc.Pool.{Stack, store_next, swap_head, depth_from}
use aethalloc.Pool.Chains.{count, Chain, depth_from-Chain}
use aethalloc.Pool.Threads.{idle, History, opened, moved, load_push, link_push, swap_push}
use aethalloc.Pool.Conserved.{Distinct}
use aethalloc.Pool.Histories.{History-Chain}

abbrev no_links : ℕ → ℕ
no_links a = 0

abbrev one_node : Stack
one_node = record { head = 8; links = no_links }

one_node-Chain : Chain no_links 8 (8 ∷ [])
one_node-Chain = (refl, omega arith, refl)

depth_from-Chain_example : depth_from no_links 9 8 ≡ min 9 (length {A = ℕ} (8 ∷ []))
depth_from-Chain_example = depth_from-Chain no_links 9 8 (8 ∷ []) one_node-Chain

two_nodes-Distinct : Distinct (8 ∷ 16 ∷ [])
two_nodes-Distinct = record { once = λ a. ground arith; not_null = refl }

pushed : History (8 ∷ 16 ∷ []) (record {
  stack = record { head = 8; links = λ a. if a == 8 then 0 else 0 };
  pushing = [];
  popping = idle;
  free = 16 ∷ [];
})
unfolding store_next swap_head
pushed =
    moved (moved (moved (opened no_links) (load_push [] 8 (16 ∷ []))) (link_push [] 8 0 []))
      (swap_push [] 8 0 [] false refl)

History-Chain_example :
    (held : List ℕ) × Chain (λ a. if a == 8 then 0 else 0) 8 held
    × ((a : ℕ) → count a held + (count a (16 ∷ []) + 0) ≡ count a (8 ∷ 16 ∷ []))
History-Chain_example = History-Chain two_nodes-Distinct pushed

-- The nodes 8 and 16 lie on the stack, and one thread has read both. Another pops both and pushes 8
-- again. The swap of the first succeeds, and 16, which the second thread holds, is the head.
abbrev both : Stack
both = record { head = 8; links = λ a. if a == 8 then 16 else 0 }

late_swap : Bool × Stack
unfolding swap_head store_next
late_swap =
    let (_, s1) = swap_head false 8 16 both in
    let (_, s2) = swap_head false 16 0 s1 in
    let (_, s3) = swap_head false 0 8 (store_next 8 0 s2) in swap_head false 8 16 s3

reuse_of_the_head : (late_swap.0 ≡ true) × (late_swap.1.head ≡ 16)
unfolding late_swap swap_head store_next
reuse_of_the_head = (refl, refl)
