-- ===== src/Tests/Caches.antt =====
-- The heap of simple-cache mode, and a client of it that holds one block of 100 bytes.
use aethalloc.Prelude.{
  ℕ, ◌+◌, ◌*◌, ◌%◌, ◌^◌, ◌≤◌, ◌<◌, ◌≡◌, ◌≢◌, refl, sym, ◌∙◌, ap, length-append, arith, ◌⊎◌, max,
  Bool, false, true, Option, some, none, List, [], ◌∷◌, ◌++◌, length, div_ceil,
}
use aethalloc.SizeClass.{round_up_pow2, size_to_class}
use aethalloc.Page.{Os, Call}
use aethalloc.Global.Memory.{load64}
use aethalloc.Global.Extents.{covers, mapped}
use aethalloc.Global.Sizes.{IsSmall}
use aethalloc.Global.Owners.{taken, owned}
use aethalloc.Simple.{State, start, head, count, pop_batch}
use aethalloc.Simple.Alloc.{alloc, miss}
use aethalloc.Simple.Dealloc.{dealloc, flush}
use aethalloc.Simple.Serving.{MapsApart}
use aethalloc.Simple.Invariant.{class_list, free_cover, Kept}
use aethalloc.Global.Owners.Histories.{covers_inner}
use aethalloc.Simple.Batches.{Transferred, pop_batch_lem}
use aethalloc.Simple.Flushing.{Flushed, flush_lem}
use aethalloc.Simple.Reuse.{SameBut, alloc-dealloc_simple}
use aethalloc.Simple.Owners.{System, Run, starts, then_step, takes, Orderly, seen}
use aethalloc.Simple.Owners.Histories.{Run-Orderly}
use aethalloc.Simple.Owners.Answers.{Run-alloc, Released, Run-dealloc}
use aethalloc.Tests.Heaps.{zeroed, small, small-IsLayout}
use aethalloc.Tests.Owners.{few_pages, one_mapping}

abbrev simple_heap : State
simple_heap = start zeroed (record { answers = some 65536 ∷ some 131072 ∷ []; calls = [] })

-- The first swap of each loop succeeds.
abbrev at_once : ℕ → List Bool
at_once i = false ∷ []

abbrev after : State
after = (miss 3 128 100 simple_heap).1

first_answer_simple : alloc at_once small simple_heap ≡ some (65552, after)
unfolding alloc aethalloc.SizeClass.size_to_class aethalloc.SizeClass.class_table
    aethalloc.SizeClass.round_up_pow2 aethalloc.Prelude.is_power_of_two aethalloc.Prelude.ones
    aethalloc.Prelude.shl aethalloc.Prelude.leading_zeros aethalloc.Prelude.bit_len
    aethalloc.Page.alloc miss
first_answer_simple = refl

first_calls_simple : after.os.calls ≡ Call.mmap 65536 4096 ∷ []
unfolding miss aethalloc.Page.alloc
first_calls_simple = refl

-- 27 blocks of the page are left; the last one that was cut off is the first to be taken.
first_list : (head 3 after ≡ 65536 + 27 * 144) × (count 3 after ≡ 27)
unfolding miss aethalloc.Page.alloc
first_list = (refl, refl)

abbrev holding : System
holding = record { heap = after; live = taken small 65552 (seen after) ∷ [] }

holding-Run : Run holding
holding-Run =
    then_step
      (starts zeroed (some 65536 ∷ some 131072 ∷ [])
        ((omega arith, omega arith, omega arith), ((omega arith, omega arith, omega arith), tt)))
      (takes small at_once small-IsLayout (omega arith) few_pages (λ i. tt) first_answer_simple
        (omega arith) (one_mapping _ first_calls_simple))

Run-Orderly_example : Orderly holding
Run-Orderly_example = Run-Orderly holding-Run

abbrev orderly : Orderly holding
orderly = Run-Orderly holding-Run

Run-alloc_example :
    (ptr : ℕ) × (st' : State) × (alloc at_once small after ≡ some (ptr, st'))
    × (MapsApart st'
        → (ptr ≡ 0) ⊎ ((ptr % 16 ≡ 0) × ((a : ℕ) → covers a ptr 100 + owned a holding.live ≤ 1)))
Run-alloc_example =
    Run-alloc at_once small holding-Run (λ i. tt) small-IsLayout (omega arith) few_pages

Run-dealloc_example :
    (st' : State) × (dealloc (false ∷ []) (taken small 65552 (seen after)).ptr after ≡ some st')
    × Released (taken small 65552 (seen after)) [] after orderly.locals orderly.globals st'
Run-dealloc_example =
    Run-dealloc (false ∷ []) [] (taken small 65552 (seen after)) [] holding-Run refl tt

class_of_hundred : size_to_class (max (round_up_pow2 100) 16) ≡ some 3
unfolding size_to_class aethalloc.SizeClass.class_table round_up_pow2
    aethalloc.Prelude.is_power_of_two aethalloc.Prelude.ones aethalloc.Prelude.shl
    aethalloc.Prelude.leading_zeros aethalloc.Prelude.bit_len
class_of_hundred = refl

held-IsSmall : IsSmall 65552 100 (seen after)
unfolding miss aethalloc.Page.alloc load64 aethalloc.Global.Memory.store64
held-IsSmall = record { block = 65536; behind = refl; header = refl; low = refl; aligned = refl }

few_blocks : length (class_list orderly.locals 3) ≡ 27
few_blocks = sym (orderly.kept.counted 3 (omega arith)) ∙ first_list.1

held_apart :
    (a : ℕ) → free_cover a orderly.locals orderly.globals + covers a held-IsSmall.block 8 ≤ 1
unfolding taken held-IsSmall
held_apart a =
    let b = taken small 65552 (seen after) in
    omega (
      arith,
      orderly.apart a,
      orderly.single a,
      covers_inner a b.base b.len 65536 8 (omega arith) (omega arith),
    )

alloc-dealloc_simple_example :
    (st1 : State) × (st2 : State) × (dealloc (false ∷ []) 65552 after ≡ some st1)
    × (alloc at_once small st1 ≡ some (65552, st2))
    × SameBut held-IsSmall.block after st2
    × (load64 st2.memory held-IsSmall.block ≡ 100)
    × Kept st2 orderly.locals orderly.globals
alloc-dealloc_simple_example =
    alloc-dealloc_simple (false ∷ []) at_once 3 65552 100 small orderly.kept held-IsSmall
      (omega arith) (omega arith) (omega arith) class_of_hundred (omega arith)
      (omega (arith, few_blocks)) (omega arith) (omega arith, omega arith) class_of_hundred
      held_apart

free_once : (a : ℕ) → free_cover a orderly.locals orderly.globals ≤ 1
free_once a = omega (arith, orderly.apart a, orderly.single a)

flush_lem_example :
    (st' : State) × (flush (true ∷ false ∷ []) 3 after ≡ some st')
    × Flushed 3 after orderly.locals orderly.globals st'
flush_lem_example =
    flush_lem (true ∷ false ∷ []) 3 (omega arith) tt (omega (arith, few_blocks))
      (omega (arith, few_blocks)) free_once orderly.kept

abbrev flushed : State
flushed =
    (flush_lem (true ∷ false ∷ []) 3 (omega arith) tt (omega (arith, few_blocks))
      (omega (arith, few_blocks)) free_once orderly.kept).0

flushed_lists : Flushed 3 after orderly.locals orderly.globals flushed
flushed_lists =
    (flush_lem (true ∷ false ∷ []) 3 (omega arith) tt (omega (arith, few_blocks))
      (omega (arith, few_blocks)) free_once orderly.kept).2

still_once : (a : ℕ) → free_cover a flushed_lists.locals flushed_lists.globals ≤ 1
still_once a = omega (
  arith,
  flushed_lists.moves.grown a,
  free_once a,
  ap (λ (o : Os). mapped a o.calls) flushed_lists.same_os,
)

pop_batch_lem_example :
    (moved : ℕ) × (st' : State) × (pop_batch at_once 5 3 flushed ≡ some (moved, st'))
    × Transferred 3 5 flushed flushed_lists.locals flushed_lists.globals moved st'
pop_batch_lem_example =
    pop_batch_lem at_once 5 3 (λ i. tt) (omega arith)
      (omega (
        arith,
        few_blocks,
        ap length flushed_lists.taken_off,
        length-append flushed_lists.batch (class_list flushed_lists.locals 3),
      ))
      still_once flushed_lists.moves.kept
