-- ===== src/Abi.antt =====
-- aethalloc-abi/src/lib.rs, the C functions, over the allocator of `Global`.
pub mod Requests
pub mod Blocks
use aethalloc.Prelude.{
  ℕ, ◌+◌, ◌-◌, ◌*◌, ◌/◌, ◌%◌, ◌^◌, min, max, Bool, true, false, Option, none, some, ◌&&◌, ◌||◌, not,
  leb, ltb, ◌==◌, if◌then◌else◌, is_power_of_two,
}
use aethalloc.Magazine.{null}
use aethalloc.Global.Memory.{Memory}
use aethalloc.Global.State.{State}
use aethalloc.Global.Alloc
use aethalloc.Global.Alloc.{Layout}
use aethalloc.Global.Dealloc
use aethalloc.Global.Dealloc.{get_alloc_size}

-- The flag `INITIALIZED` and the allocator.
pub record Process : Type 0 where
  pub initialized : Bool
  pub heap : State

unfoldable pub ensure_init : Process → Process
ensure_init p = if p.initialized then p else record p { initialized = true }

-- `Layout::from_size_align`: the alignment is a power of two, and the size rounded up to it is at
-- most `isize::MAX`.
unfoldable pub from_size_align : (size align : ℕ) → Option Layout
from_size_align size align =
    if is_power_of_two align && leb size (2 ^ 63 - align)
    then some (record { size = size; align = align })
    else none

-- The call of `ALLOCATOR.alloc`, or null where there is no layout.
unfoldable pub alloc_layout : Option Layout → Process → ℕ × Process
alloc_layout none p = (null, p)
alloc_layout (some l) p = let (ptr, heap) = Alloc.alloc l p.heap in (ptr, record p { heap = heap })

unfoldable pub malloc : ℕ → Process → ℕ × Process
unfolding ensure_init from_size_align alloc_layout
malloc size p =
    let p' = ensure_init p in
    if size == 0 then (null, p') else alloc_layout (from_size_align size 8) p'

unfoldable pub free : ℕ → Process → Process
free ptr p = if ptr == 0 then p else record p { heap = Dealloc.dealloc ptr p.heap }

-- `write_bytes(ptr, 0, n)`, on the 32-bit units of the memory, the last one in part.
unfoldable pub write_zeros : Memory → (ptr n : ℕ) → Memory
write_zeros m ptr n a =
    if leb ptr a && ltb a (ptr + n)
    then (let rest = ptr + n - a in if leb 4 rest then 0 else m a / 256 ^ rest * 256 ^ rest)
    else m a

unfoldable pub calloc : (nmemb size : ℕ) → Process → ℕ × Process
unfolding malloc write_zeros
calloc nmemb size p =
    if ltb (nmemb * size) (2 ^ 64)
    then (let (ptr, p') = malloc (nmemb * size) p in
        if ptr == 0 then (ptr, p') else (
          ptr,
          record p' {
            heap = record (p'.heap) { memory = write_zeros p'.heap.memory ptr (nmemb * size) };
          },
        ))
    else (null, p)

-- `copy_nonoverlapping(src, dst, n)`, on the 32-bit units of the memory, the last one in part.
unfoldable pub copy : Memory → (src dst n : ℕ) → Memory
copy m src dst n a =
    if leb dst a && ltb a (dst + n)
    then (let rest = dst + n - a in
        let v = m (src + (a - dst)) in
        if leb 4 rest then v else m a / 256 ^ rest * 256 ^ rest + v % 256 ^ rest)
    else m a

unfoldable pub realloc : (ptr size : ℕ) → Process → ℕ × Process
realloc ptr size p =
    if ptr == 0
    then malloc size p
    else if size == 0
    then (null, free ptr p)
    else (let old_size = get_alloc_size ptr p.heap in
        let (new_ptr, p') = malloc size p in
        if new_ptr == 0 then (new_ptr, p') else (
          new_ptr,
          free ptr (record p' {
            heap = record (p'.heap) {
              memory = copy p'.heap.memory ptr new_ptr (min old_size size);
            };
          }),
        ))

unfoldable pub aligned_alloc : (alignment size : ℕ) → Process → ℕ × Process
unfolding from_size_align alloc_layout
aligned_alloc alignment size p =
    if (alignment == 0) || not (is_power_of_two alignment)
    then (null, p)
    else alloc_layout (from_size_align (max size 1) alignment) p

-- The return code, and what is written to `*memptr`.
unfoldable pub posix_memalign : (alignment size : ℕ) → Process → (ℕ × Option ℕ) × Process
unfolding aligned_alloc
posix_memalign alignment size p =
    if (alignment == 0) || (not (is_power_of_two alignment) || not (alignment % 8 == 0))
    then ((22, none), p)
    else (let (ptr, p') = aligned_alloc alignment size p in
        if (ptr == 0) && not (size == 0) then ((12, none), p') else ((0, some ptr), p'))
