-- ===== src/Abi/Blocks.antt =====
-- What the C functions do to the contents of the blocks.
use aethalloc.Prelude.{
  ℕ, ◌+◌, ◌-◌, ◌*◌, ◌%◌, ◌^◌, ◌≤◌, ◌<◌, ◌≡◌, refl, ◌∙◌, ap, arith, true, false, ◌⊎◌, inl, inr, ◌&&◌,
  leb, ltb, ◌==◌, Bool-cases, ==_iff,
}
use aethalloc.Magazine.{null}
use aethalloc.Global.Memory.{Memory}
use aethalloc.Global.Invariant.{StateOk}
use aethalloc.Global.Mapping.{Refused}
use aethalloc.Global.Dealloc.{get_alloc_size}
use aethalloc.Global.Releases.{dealloc-StateOk}
use aethalloc.Global.Untouched.{dealloc-memory, with_memory-Ok}
use aethalloc.Abi.{Process, malloc, free, calloc, realloc, write_zeros, copy}
use aethalloc.Abi.Requests.{Granted-null, Granted-some, malloc_lem}

write_zeros_lem : (m : Memory) (ptr n i : ℕ) → i + 4 ≤ n → write_zeros m ptr n (ptr + i) ≡ 0
unfolding write_zeros
write_zeros_lem m ptr n i h =
    let inside : (leb ptr (ptr + i) && ltb (ptr + i) (ptr + n)) ≡ true = ground arith in
    let whole : leb 4 (ptr + n - (ptr + i)) ≡ true = ground arith in rw (inside, whole) refl

copy_lem : (m : Memory) (src dst n i : ℕ) → i + 4 ≤ n → copy m src dst n (dst + i) ≡ m (src + i)
unfolding copy
copy_lem m src dst n i h =
    let inside : (leb dst (dst + i) && ltb (dst + i) (dst + n)) ≡ true = ground arith in
    let whole : leb 4 (dst + n - (dst + i)) ≡ true = ground arith in
    let at : dst + i - dst ≡ i = omega arith in rw (inside, whole, at) refl

-- `calloc`, for any four bytes from `i` on among the `nmemb * size` of the request. It answers null,
-- and then the bytes are more than 2^63 - 8 or `mmap` refuses the next page request, or a pointer at
-- a multiple of 16 where these four bytes are zero. The invariant is kept.
pub calloc_lem :
    (nmemb size i : ℕ) (p : Process)
    → StateOk p.heap
    → i + 4 ≤ nmemb * size
    → let (ptr, p') = calloc nmemb size p in
      StateOk p'.heap
      × (((ptr ≡ null) × ((2 ^ 63 < nmemb * size + 8) ⊎ Refused p.heap.os.answers))
          ⊎ ((ptr % 16 ≡ 0) × (p'.heap.memory (ptr + i) ≡ 0)))
unfolding calloc
calloc_lem nmemb size i p ok h = elim (Bool-cases (ltb (nmemb * size) (2 ^ 64))) [
  | inl fits ↦
      let (ok', got) = malloc_lem (nmemb * size) p (omega arith) ok in
      let (ptr, p') = malloc (nmemb * size) p in
      elim (Bool-cases (ptr == 0)) [
        | inl failed ↦
            rw (fits, failed)
              (
                ok',
                inl (
                  (==_iff _ 0).0 failed,
                  Granted-null _ 8 _ p.heap p'.heap got (omega arith) failed,
                ),
              )
        | inr done ↦
            rw (fits, done)
              (
                with_memory-Ok _ ok',
                inr (
                  (Granted-some _ 8 _ p.heap p'.heap got done).1,
                  write_zeros_lem p'.heap.memory ptr _ i h,
                ),
              )
      ]
  | inr over ↦ rw over (ok, inl (refl, inl (ground arith)))
]

-- `realloc` of a pointer at a multiple of 16 to at least one byte, for any four bytes from `i` on
-- within the old size and the new. It answers null, and then the state is the one that the refused
-- `malloc` leaves, the old block not released; or a pointer at a multiple of 16 where these four bytes
-- are those of the old block after `malloc`. The invariant is kept.
pub realloc_lem :
    (ptr size i : ℕ) (p : Process)
    → StateOk p.heap
    → 0 < ptr
    → ptr % 16 ≡ 0
    → i + 4 ≤ size
    → i + 4 ≤ get_alloc_size ptr p.heap
    → let (new_ptr, p') = realloc ptr size p in
      let (_, p1) = malloc size p in
      StateOk p'.heap
      × (((new_ptr ≡ null) × (p' ≡ p1) × ((2 ^ 63 < size + 8) ⊎ Refused p.heap.os.answers))
          ⊎ ((new_ptr % 16 ≡ 0) × (p'.heap.memory (new_ptr + i) ≡ p1.heap.memory (ptr + i))))
unfolding realloc free
realloc_lem ptr size i p ok pos at lo hi =
    let not_null : (ptr == 0) ≡ false = ground arith in
    let some_bytes : (size == 0) ≡ false = ground arith in
    let (ok', got) = malloc_lem size p (omega arith) ok in
    let (new_ptr, p') = malloc size p in
    elim (Bool-cases (new_ptr == 0)) [
      | inl failed ↦
          rw (not_null, some_bytes, failed)
            (
              ok',
              inl (
                (==_iff _ 0).0 failed,
                refl,
                Granted-null _ 8 _ p.heap p'.heap got (omega arith) failed,
              ),
            )
      | inr done ↦
          rw (not_null, some_bytes, done)
            (
              dealloc-StateOk ptr at (with_memory-Ok _ ok'),
              inr (
                (Granted-some _ 8 _ p.heap p'.heap got done).1,
                ap (λ (m : Memory). m (new_ptr + i)) (dealloc-memory ptr _)
                    ∙ copy_lem p'.heap.memory ptr new_ptr _ i (omega arith),
              ),
            )
    ]
