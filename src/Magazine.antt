-- ===== src/Magazine.antt =====
-- aethalloc-core/src/magazine.rs: `Magazine`, a bounded stack of block addresses in an array.
pub mod Laws
use aethalloc.Prelude.{
  ℕ, zero, suc, ◌+◌, ◌-◌, ◌*◌, min, Bool, true, false, Option, none, some, List, leb, ◌==◌,
  if◌then◌else◌, get_or, set, replicate,
}

abbrev pub magazine_capacity : ℕ
magazine_capacity = 64

abbrev pub null : ℕ
null = 0

-- A block is its address.
pub record Magazine : Type 0 where
  pub blocks : List ℕ
  pub count : ℕ

unfoldable pub new : Magazine
new = record { blocks = replicate magazine_capacity null; count = 0 }

unfoldable pub is_empty : Magazine → Bool
is_empty m = m.count == 0

unfoldable pub is_full : Magazine → Bool
is_full m = leb magazine_capacity m.count

unfoldable pub push : Magazine → ℕ → Bool × Magazine
push m ptr =
    if leb magazine_capacity m.count
    then (false, m)
    else (true, record m { blocks = set m.blocks m.count ptr; count = m.count + 1 })

unfoldable pub pop : Magazine → Option ℕ × Magazine
pop m =
    if m.count == 0
    then (none, m)
    else (some (get_or m.blocks (m.count - 1) null), record m { count = m.count - 1 })

unfoldable pub clear : Magazine → Magazine
clear m = record m { count = 0 }

-- The loop of `bulk_init`, from `i` on, with `n` rounds left.
unfoldable pub bulk_write : List ℕ → (count base block_size i n : ℕ) → List ℕ
bulk_write blocks count base block_size i zero = blocks
bulk_write blocks count base block_size i (suc n) =
    bulk_write (set blocks (count + i) (base + i * block_size)) count base block_size (i + 1) n

unfoldable pub bulk_init : Magazine → (base block_size count : ℕ) → Magazine
bulk_init m base block_size count =
    let to_add = min count (magazine_capacity - m.count) in
    record {
      blocks = bulk_write m.blocks m.count base block_size 0 to_add;
      count = m.count + to_add;
    }

unfoldable pub len : Magazine → ℕ
len m = m.count

-- `core::mem::take`: the magazine, and the default that is left in its place.
unfoldable pub mem_take : Magazine → Magazine × Magazine
mem_take m = (m, new)
