-- ===== src/Vmpc/PageTable.antt =====
-- aethalloc-vmpc/src/page_table.rs with the feature `std`: entries of /proc/self/pagemap. The system
-- call `pread` is a parameter; it answers the eight bytes at an offset of the file, if it reads them.
use aethalloc.Prelude.{
  ◌>>=◌, ℕ, ◌+◌, ◌-◌, ◌*◌, ◌/◌, ◌%◌, ◌^◌, ◌<◌, ◌≡◌, refl, ◌∙◌, arith, Bool, false, Option, none,
  some, ◌&&◌, not, ◌==◌, if◌then◌else◌, bit_and, bit_and_mask,
}

abbrev page_size : ℕ
page_size = 4096

abbrev pagemap_entry_size : ℕ
pagemap_entry_size = 8

pub record PageMapEntry : Type 0 where
  pub raw : ℕ

-- `(raw >> i) & 1 == 1`
abbrev flag : ℕ → PageMapEntry → Bool
flag i e = bit_and (e.raw / 2 ^ i) 1 == 1

unfoldable pub is_present : PageMapEntry → Bool
is_present e = flag 63 e

unfoldable pub is_swapped : PageMapEntry → Bool
is_swapped e = flag 62 e

unfoldable pub is_file_mapped : PageMapEntry → Bool
is_file_mapped e = flag 61 e

unfoldable pub page_frame_number : PageMapEntry → ℕ
page_frame_number e = bit_and e.raw (2 ^ 55 - 1)

unfoldable pub physical_address : PageMapEntry → Option ℕ
unfolding is_present is_swapped page_frame_number
physical_address e =
    if is_present e && not (is_swapped e)
    then some (page_frame_number e * page_size % 2 ^ 64)
    else none

module _ (pread : (fd offset : ℕ) → Option ℕ) where
  unfoldable pub read_pagemap_entry : (fd addr : ℕ) → Option PageMapEntry
  read_pagemap_entry fd addr = do
    raw ← pread fd (addr / page_size * pagemap_entry_size)
    some (record { raw = raw })

  -- A tracker is its file descriptor.
  unfoldable pub query_page : Option ℕ → ℕ → Option PageMapEntry
  unfolding read_pagemap_entry
  query_page tracker addr = do fd ← tracker; read_pagemap_entry fd addr

  unfoldable pub same_physical_page : Option ℕ → (addr1 addr2 : ℕ) → Bool
  unfolding query_page
  same_physical_page tracker addr1 addr2 = elim (query_page tracker addr1) [
    | none ↦ false
    | some e1 ↦ elim (query_page tracker addr2) [
      | none ↦ false
      | some e2 ↦ is_present e1 && is_present e2 && (page_frame_number e1 == page_frame_number e2)
    ]
  ]

  unfoldable pub tracked_address : Option ℕ → ℕ → Option ℕ
  unfolding query_page physical_address
  tracked_address tracker addr = do e ← query_page tracker addr; physical_address e

-- An entry as the kernel lays it out: the flags from bit 63 down, other bits, and the frame number.
abbrev pub entry_of : (present swapped file others frame : ℕ) → PageMapEntry
entry_of present swapped file others frame = record {
  raw = present * 2 ^ 63 + swapped * 2 ^ 62 + file * 2 ^ 61 + others * 2 ^ 55 + frame;
}

bit_and_one : (n : ℕ) → bit_and n 1 ≡ n % 2
bit_and_one n = bit_and_mask 1 n

-- From an entry that is laid out as the kernel does it, each accessor reads its own field back, and
-- the physical address is that of the frame if the page is present and not swapped out, for a frame
-- number below 2^52; otherwise there is none.
pub physical_address-entry_of :
    (present swapped file others frame : ℕ)
    → present < 2
    → swapped < 2
    → file < 2
    → others < 2 ^ 6
    → frame < 2 ^ 52
    → let e = entry_of present swapped file others frame in
      (is_present e ≡ (present == 1))
      × (is_swapped e ≡ (swapped == 1))
      × (is_file_mapped e ≡ (file == 1))
      × (page_frame_number e ≡ frame)
      × (physical_address e
          ≡ (if (present == 1) && not (swapped == 1) then some (frame * page_size) else none))
unfolding is_present is_swapped is_file_mapped page_frame_number physical_address
physical_address-entry_of present swapped file others frame p s f o h =
    let e = entry_of present swapped file others frame in
    let at63 : bit_and (e.raw / 2 ^ 63) 1 ≡ present = bit_and_one _ ∙ omega arith in
    let at62 : bit_and (e.raw / 2 ^ 62) 1 ≡ swapped = bit_and_one _ ∙ omega arith in
    let at61 : bit_and (e.raw / 2 ^ 61) 1 ≡ file = bit_and_one _ ∙ omega arith in
    let number : bit_and e.raw (2 ^ 55 - 1) ≡ frame = bit_and_mask 55 e.raw ∙ omega arith in
    let whole : frame * 4096 % 2 ^ 64 ≡ frame * 4096 = omega arith in
    (rw at63 refl, rw at62 refl, rw at61 refl, number, rw (at63, at62, number, whole) refl)
