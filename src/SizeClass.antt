-- ===== src/SizeClass.antt =====
-- aethalloc-core/src/size_class.rs, and the classification built on it,
-- `size_to_class` of aethalloc-abi/src/global.rs.
pub mod Bounds
pub mod Classes
use aethalloc.Prelude.{
  ℕ, ◌+◌, ◌-◌, ◌*◌, ◌/◌, ◌^◌, max, Bool, true, false, Option, none, some, ◌&&◌, ltb, leb, ◌==◌,
  if◌then◌else◌, usize_bits, leading_zeros, trailing_zeros, is_power_of_two, shl, div_ceil,
}
use aethalloc.Page.{page_size}

pub data SizeClass : Type 0 where
  tiny small medium large : SizeClass

unfoldable pub classify : ℕ → SizeClass
classify size =
    if size == 0
    then tiny
    else if leb size 128
    then tiny
    else if leb size (8 * 1024)
    then small
    else if leb size (256 * 1024)
    then medium
    else large

unfoldable pub round_up_pow2 : ℕ → ℕ
round_up_pow2 size =
    if size == 0
    then 1
    else if is_power_of_two size
    then size
    else shl 1 (usize_bits - leading_zeros size)

unfoldable pub alloc_size : SizeClass → ℕ → ℕ
alloc_size tiny requested =
    if requested == 0
    then 16
    else let pow2 = round_up_pow2 requested in if ltb pow2 16 then 16 else pow2
alloc_size small requested = round_up_pow2 requested
alloc_size medium requested = round_up_pow2 requested
alloc_size large requested = div_ceil requested page_size * page_size

-- `trailing_zeros` is read only below the two guards.
unfoldable pub slab_index : ℕ → Option ℕ
slab_index size =
    if size == 0
    then none
    else if ltb (8 * 1024) size
    then none
    else let rounded = round_up_pow2 size in
      if ltb rounded 16
      then none
      else let idx = trailing_zeros rounded in
        if leb 4 idx && leb idx 13 then some (idx - 4) else none

-- The `match` of `size_to_class`, on the rounded size.
unfoldable pub class_table : ℕ → Option ℕ
class_table n =
    if n == 16
    then some 0
    else if n == 32
    then some 1
    else if n == 64
    then some 2
    else if n == 128
    then some 3
    else if n == 256
    then some 4
    else if n == 512
    then some 5
    else if n == 1024
    then some 6
    else if n == 2048
    then some 7
    else if n == 4096
    then some 8
    else if n == 8192
    then some 9
    else if n == 16384
    then some 10
    else if n == 32768
    then some 11
    else if n == 65536
    then some 12
    else none

unfoldable pub size_to_class : ℕ → Option ℕ
size_to_class size = class_table (max (round_up_pow2 size) 16)
