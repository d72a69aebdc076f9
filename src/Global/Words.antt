-- ===== src/Global/Words.antt =====
-- Stores and loads of headers: what is read back, and what a store leaves alone.
use native.Mathlib.Nat.{div-add-mod', one-le-pow, mod-lt, mul-mod_left}
use aethalloc.Prelude.{
  ℕ, zero, suc, ◌+◌, ◌-◌, ◌*◌, ◌/◌, ◌%◌, ◌^◌, ◌≤◌, ◌<◌, ◌≡◌, ◌≢◌, ◌∙◌, sym, ap, subst, arith,
  bit_and, bit_and_high, pow_split,
}
use aethalloc.Global.Memory.{
  Memory, store64, load64, PageHeader, write_page_header, read_page_header, LargeAllocHeader,
  write_large_header, read_large_header, align_up, page_header_from_ptr,
}

pub load64-store64 : (m : Memory) (addr v : ℕ) → v < 2 ^ 64 → load64 (store64 m addr v) addr ≡ v
unfolding load64 store64
load64-store64 m addr v h = ground arith

-- A 64-bit store leaves the units outside its eight bytes alone.
pub store64-apart : (m : Memory) (addr v a : ℕ) → a ≢ addr → a ≢ addr + 4 → store64 m addr v a ≡ m a
unfolding store64
store64-apart m addr v a p q = ground arith

pub store64-low : (m : Memory) (addr v : ℕ) → store64 m addr v addr ≡ v % 2 ^ 32
unfolding store64
store64-low m addr v = ground arith

-- A page header whose magic number fits 32 bits and whose size fits 64 is read back as written, but
-- for the page count, of which the low 32 bits are kept.
pub read-write_page_header :
    (m : Memory) (addr : ℕ) (h : PageHeader)
    → h.magic_word < 2 ^ 32
    → h.requested_size < 2 ^ 64
    → read_page_header (write_page_header m addr h) addr
      ≡ record h { num_pages = h.num_pages % 2 ^ 32 }
unfolding read_page_header write_page_header
read-write_page_header m addr h p r = ground arith

-- A large header whose magic number fits 32 bits and whose base fits 64 is read back as written.
pub read-write_large_header :
    (m : Memory) (addr : ℕ) (h : LargeAllocHeader)
    → h.magic_word < 2 ^ 32
    → h.base_ptr < 2 ^ 64
    → read_large_header (write_large_header m addr h) addr ≡ h
unfolding read_large_header write_large_header
read-write_large_header m addr h p q = ground arith

-- A large header written at least 16 bytes behind a page header leaves it as it is.
pub read_page_header-write_large_header :
    (m : Memory) (base addr : ℕ) (h : LargeAllocHeader)
    → base + 16 ≤ addr
    → read_page_header (write_large_header m addr h) base ≡ read_page_header m base
unfolding read_page_header write_large_header
read_page_header-write_large_header m base addr h p = ground arith

pred_mul : (a b : ℕ) → (a - 1) * b ≡ a * b - b
pred_mul zero b = omega arith
pred_mul (suc a) b = let e : suc a - 1 ≡ a = omega arith in rw e (omega arith)

pow_complement : (j : ℕ) → j ≤ 64 → (2 ^ (64 - j) - 1) * 2 ^ j ≡ 2 ^ 64 - 2 ^ j
pow_complement j h =
    let e : 64 - j + j ≡ 64 = omega arith in
    let p : 2 ^ 64 ≡ 2 ^ (64 - j) * 2 ^ j = sym (ap (λ (d : ℕ). 2 ^ d) e) ∙ pow_split j (64 - j) in
    pred_mul (2 ^ (64 - j)) (2 ^ j) ∙ ap (λ (x : ℕ). x - 2 ^ j) (sym p)

-- Clearing the low `j` bits of a word.
pub bit_and_clear : (j n : ℕ) → j ≤ 64 → n < 2 ^ 64 → bit_and n (2 ^ 64 - 2 ^ j) ≡ n / 2 ^ j * 2 ^ j
bit_and_clear j n h lt =
    let e : 64 - j + j ≡ 64 = omega arith in
    let p : 2 ^ 64 ≡ 2 ^ (64 - j) * 2 ^ j = sym (ap (λ (d : ℕ). 2 ^ d) e) ∙ pow_split j (64 - j) in
    let cut : n / 2 ^ j * 2 ^ j + n % 2 ^ j ≡ n = div-add-mod' n (2 ^ j) in
    let pos : 0 < 2 ^ j = one-le-pow j 2 (omega arith) in
    let below : n % 2 ^ j < 2 ^ j = mod-lt n pos in
    let q : n / 2 ^ j < 2 ^ (64 - j) = grind (arith, p, cut) in
    rw (← pow_complement j h) (
      subst (λ x. bit_and x ((2 ^ (64 - j) - 1) * 2 ^ j) ≡ n / 2 ^ j * 2 ^ j) cut
        (bit_and_high j (64 - j) (n / 2 ^ j) (n % 2 ^ j) q below))

-- `align_up` to a power of two up to 2^63 gives the least multiple of it from an address on, if their
-- sum does not pass 2^64.
pub align_up_bounds :
    (addr j : ℕ)
    → j ≤ 63
    → addr + 2 ^ j ≤ 2 ^ 64
    → (align_up addr (2 ^ j) % 2 ^ j ≡ 0)
      × (addr ≤ align_up addr (2 ^ j))
      × (align_up addr (2 ^ j) < addr + 2 ^ j)
unfolding align_up
align_up_bounds addr j h fits =
    let pos : 0 < 2 ^ j = one-le-pow j 2 (omega arith) in
    let n = addr + 2 ^ j - 1 in
    let e : bit_and n (2 ^ 64 - 2 ^ j) ≡ n / 2 ^ j * 2 ^ j =
      bit_and_clear j n (omega arith) (omega arith) in
    let cut : n / 2 ^ j * 2 ^ j + n % 2 ^ j ≡ n = div-add-mod' n (2 ^ j) in
    let below : n % 2 ^ j < 2 ^ j = mod-lt n pos in
    (rw e (mul-mod_left (n / 2 ^ j) (2 ^ j)), omega (arith, e, cut), omega (arith, e, cut))

-- `page_header_from_ptr` of a 64-bit address less than a page above a page boundary is that boundary.
pub page_header_from_ptr_lem :
    (base d : ℕ)
    → base % 4096 ≡ 0
    → d < 4096
    → base + d < 2 ^ 64
    → page_header_from_ptr (base + d) ≡ base
unfolding page_header_from_ptr
page_header_from_ptr_lem base d aligned small fits =
    omega (arith, bit_and_clear 12 (base + d) (omega arith) fits)
