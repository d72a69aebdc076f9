-- ===== src/Vmpc/Relocation.antt =====
-- What a relocation leaves in the address space.
use native.Mathlib.Decide.{dec_le}
use aethalloc.Prelude.{
  ℕ, ◌+◌, ◌-◌, ◌%◌, ◌≤◌, ◌<◌, ◌≡◌, ◌≢◌, refl, arith, true, false, none, some, ◌⊎◌, inl, inr, ◌||◌,
  ltb, ◌==◌,
}
use aethalloc.Vmpc.Promises.{Within, Outside, KernelOk}
use aethalloc.Vmpc.Compactor.{Kernel, success, page_size, remap, try_relocate_page}

module _ (k : Kernel) (ok : KernelOk k) (src size : ℕ) where
  in_or_out : (a base len : ℕ) → Within a base len ⊎ Outside a base len
  in_or_out a base len = elim (dec_le base a) [
    | yes lo ↦ elim (dec_le (base + len) a) [
      | yes past ↦ inr (inr past)
      | no inside ↦ inl (lo, omega arith)
    ]
    | no below ↦ inr (inl (omega arith))
  ]

  -- The buffer lies apart from the source.
  temp_apart :
      (temp : ℕ) (sp : k.Space)
      → 0 < size
      → ((i : ℕ) → i < size → k.byte sp (src + i) ≢ none)
      → (k.mmap size sp).0 ≡ some temp
      → (temp + size ≤ src) ⊎ (src + size ≤ temp)
  temp_apart temp sp p there e = elim (in_or_out src temp size) [
    | inl inside ↦
        let back : src + 0 ≡ src = omega arith in
        absurd (there 0 p (ok.mmap_fresh size temp (src + 0) sp e (rw back inside)))
    | inr (inr past) ↦ inl past
    | inr (inl below) ↦ elim (dec_le (src + size) temp) [
      | yes apart ↦ inr apart
      | no over ↦
          let back : src + (temp - src) ≡ temp = omega arith in
          absurd (
            there (temp - src) (omega arith)
              (rw back (ok.mmap_fresh size temp temp sp e (omega arith, omega arith))))
    ]
  ]

  module _ (temp : ℕ) (sp : k.Space) (p : 0 < size)
      (there : (i : ℕ) → i < size → k.byte sp (src + i) ≢ none) (e : (k.mmap size sp).0 ≡ some temp)
      (a v : ℕ) (held : k.byte sp a ≡ some v) where
    apart : (temp + size ≤ src) ⊎ (src + size ≤ temp)
    apart = temp_apart temp sp p there e

    filled : k.Space
    filled = k.copy src temp size (k.mmap size sp).1

    -- The source is gone, and the buffer full.
    gone : k.Space
    gone = (k.munmap src size filled).1

    remade : k.Space
    remade = (k.mmap_fixed src size gone).1

-- A positive multiple of the page size is relocated with success, with no promise of the kernel, where
-- the kernel maps a buffer, unmaps the source and maps it anew.
pub try_relocate_page-success :
    (k : Kernel) (src size temp : ℕ) (sp : k.Space)
    → 0 < size
    → size % page_size ≡ 0
    → (k.mmap size sp).0 ≡ some temp
    → let sp1 = k.copy src temp size (k.mmap size sp).1 in
      (k.munmap src size sp1).0 ≡ true
      → (k.mmap_fixed src size (k.munmap src size sp1).1).0 ≡ true
      → (try_relocate_page k src size sp).0 ≡ inr success
unfolding try_relocate_page remap
try_relocate_page-success k src size temp sp p q e unmapped done =
    let whole : ((size == 0) || ltb 0 (size % page_size)) ≡ false = ground arith in
    rw (whole, e, unmapped, done) refl
