-- ===== src/Tests/Sizes.antt =====
-- The size classes and the magazines at concrete sizes.
use aethalloc.Prelude.{ℕ, ◌+◌, ◌^◌, ◌≤◌, ◌<◌, ◌≡◌, arith, max, some}
use aethalloc.SizeClass.{classify, alloc_size, round_up_pow2, size_to_class}
use aethalloc.SizeClass.Bounds.{Fits, alloc_size-classify}
use aethalloc.SizeClass.Classes.{size_to_class_total}

alloc_size-classify_example :
    (300000 ≤ alloc_size (classify 300000) 300000)
    × Fits (classify 300000) 300000 (alloc_size (classify 300000) 300000)
alloc_size-classify_example = alloc_size-classify 300000 (omega arith)

size_to_class_total_example :
    (c : ℕ) × (size_to_class 100 ≡ some c)
    × (c < 13)
    × (max (round_up_pow2 100) 16 ≡ 2 ^ (c + 4))
    × (100 ≤ 2 ^ (c + 4))
    × ((j : ℕ) → 4 ≤ j → 100 ≤ 2 ^ j → 2 ^ (c + 4) ≤ 2 ^ j)
size_to_class_total_example = size_to_class_total 100 (omega arith) (omega arith)
