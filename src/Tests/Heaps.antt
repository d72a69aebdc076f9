-- ===== src/Tests/Heaps.antt =====
-- The allocator at its start, with two mappings to come.
use aethalloc.Prelude.{
  ℕ, ◌+◌, ◌*◌, ◌-◌, ◌%◌, ◌^◌, ◌<◌, ◌≡◌, ◌⊎◌, inl, arith, max, false, none, some, [], ◌∷◌, refl,
  is_power_of_two, div_ceil, if◌then◌else◌, ◌==◌,
}
use aethalloc.SizeClass.{round_up_pow2, size_to_class}
use aethalloc.Magazine.{null}
use aethalloc.Page.{Call, page_size}
use aethalloc.Global.Memory.{Memory, cache_header_size, read_page_header, read_large_header, load64}
use aethalloc.Global.State.{State, start}
use aethalloc.Global.Alloc.{Layout, IsLayout, alloc, large_pages}
use aethalloc.Global.Dealloc.{dealloc, get_alloc_size, is_large, is_cached}
use aethalloc.Global.Invariant.{StateOk, start-Ok}
use aethalloc.Global.Mapping.{Refused}
use aethalloc.Global.Requests.{get_alloc_size-alloc, dealloc-alloc_large}
use aethalloc.Global.Reuse.{Released, dealloc-alloc_small}
use aethalloc.Abi.{Process, malloc, calloc, realloc, posix_memalign}
use aethalloc.Abi.Requests.{IsAlignment, Fresh, posix_memalign_lem}
use aethalloc.Abi.Blocks.{calloc_lem, realloc_lem}

abbrev pub zeroed : Memory
zeroed a = 0

abbrev pub heap : State
heap = start zeroed (record { answers = some 65536 ∷ some 131072 ∷ []; calls = [] })

heap-Ok : StateOk heap
heap-Ok =
    start-Ok zeroed _
      ((omega arith, omega arith, omega arith), ((omega arith, omega arith, omega arith), tt))

abbrev pub small : Layout
small = record { size = 100; align = 8 }

pub small-IsLayout : IsLayout small
small-IsLayout = record {
  log_align = 3;
  power = omega arith;
  log_small = omega arith;
  fits = omega arith;
}

abbrev big : Layout
big = record { size = 100000; align = 64 }

big-IsLayout : IsLayout big
big-IsLayout = record {
  log_align = 6;
  power = omega arith;
  log_small = omega arith;
  fits = omega arith;
}

get_alloc_size-alloc_example :
    let (ptr, st') = alloc small heap in
    ((ptr ≡ null) × Refused heap.os.answers) ⊎ (get_alloc_size ptr st' ≡ 100)
get_alloc_size-alloc_example = get_alloc_size-alloc small-IsLayout heap-Ok (omega arith)

dealloc-alloc_large_example :
    let (ptr, st') = alloc big heap in
    (ptr ≡ null)
    ⊎ ((base : ℕ) × (st'.os.calls
          ≡ Call.mmap base (large_pages big * page_size % 2 ^ 64) ∷ heap.os.calls)
        × ((dealloc ptr st').os.calls
            ≡ Call.munmap base (large_pages big * page_size % 2 ^ 64) ∷ st'.os.calls))
unfolding large_pages div_ceil
dealloc-alloc_large_example =
    dealloc-alloc_large big-IsLayout heap-Ok (inl (omega arith)) (omega arith)

dealloc-alloc_small_example :
    let (ptr, st') = alloc small heap in
    (ptr ≡ null)
    ⊎ ((class : ℕ) × (size_to_class (max (round_up_pow2 100) 16) ≡ some class)
        × Released class (ptr - cache_header_size) st' (dealloc ptr st'))
dealloc-alloc_small_example =
    dealloc-alloc_small {l = small} heap-Ok (omega arith) (omega arith, omega arith)

abbrev hundred : ℕ
hundred = 100

abbrev process : Process
process = record { initialized = false; heap = heap }

posix_memalign_lem_example :
    let ((code, out), p') = posix_memalign 64 100 process in
    StateOk p'.heap
    × (((code ≡ 22) × (out ≡ none) × (p' ≡ process) × ((is_power_of_two 64 ≡ false) ⊎ (0 < 64 % 8)))
        ⊎ (IsAlignment 64
            × (((code ≡ 12)
                  × (out ≡ none)
                  × (0 < hundred)
                  × ((2 ^ 63 < max 100 1 + 64) ⊎ Refused process.heap.os.answers))
                ⊎ ((ptr : ℕ) × (code ≡ 0)
                    × (out ≡ some ptr)
                    × (((ptr ≡ null) × (hundred ≡ 0)) ⊎ Fresh (max 100 1) 64 ptr p'.heap)))))
posix_memalign_lem_example = posix_memalign_lem 64 100 process heap-Ok

calloc_lem_example :
    let (ptr, p') = calloc 5 20 process in
    StateOk p'.heap
    × (((ptr ≡ null) × ((2 ^ 63 < 5 * 20 + 8) ⊎ Refused process.heap.os.answers))
        ⊎ ((ptr % 16 ≡ 0) × (p'.heap.memory (ptr + 96) ≡ 0)))
calloc_lem_example = calloc_lem 5 20 96 process heap-Ok (omega arith)

-- A process in which the block behind 65552 has a header for 100 bytes.
abbrev held : Memory
held a = if a == 65536 then 100 else 0

abbrev holding : Process
holding = record process { heap = record heap { memory = held } }

held_size : get_alloc_size 65552 holding.heap ≡ 100
unfolding get_alloc_size read_page_header read_large_header load64 is_large is_cached
held_size = refl

holding-Ok : StateOk holding.heap
holding-Ok =
    start-Ok held _
      ((omega arith, omega arith, omega arith), ((omega arith, omega arith, omega arith), tt))

realloc_lem_example :
    let (new_ptr, p') = realloc 65552 200 holding in
    let (_, p1) = malloc 200 holding in
    StateOk p'.heap
    × (((new_ptr ≡ null) × (p' ≡ p1) × ((2 ^ 63 < 200 + 8) ⊎ Refused holding.heap.os.answers))
        ⊎ ((new_ptr % 16 ≡ 0) × (p'.heap.memory (new_ptr + 96) ≡ p1.heap.memory (65552 + 96))))
realloc_lem_example =
    realloc_lem 65552 200 96 holding holding-Ok (omega arith) (omega arith) (omega arith)
      (omega (arith, held_size))
