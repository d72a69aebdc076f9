-- ===== src/Vmpc/Promises.antt =====
-- What POSIX says of the calls of a relocation, and how a relocation may end.
use aethalloc.Prelude.{
  Bool, ℕ, ◌+◌, ◌%◌, ◌≤◌, ◌<◌, ◌≡◌, ◌≢◌, true, false, none, some, ◌⊎◌, inl, inr,
}
use aethalloc.Vmpc.Compactor.{
  Kernel, Outcome, CompactResult, invalid_address, out_of_memory, unknown, success, page_size,
}

abbrev pub Within : (a base len : ℕ) → Type 0
Within a base len = (base ≤ a) × (a < base + len)

abbrev pub Outside : (a base len : ℕ) → Type 0
Outside a base len = (a < base) ⊎ (base + len ≤ a)

-- What POSIX says of the calls. A call of `mmap` that fails, or one of `munmap`, changes nothing
-- outside its range, and without MAP_FIXED nothing at all; fresh pages lie where nothing was mapped.
pub record KernelOk (k : Kernel) : Type 0 where
  pub mmap_fresh :
      (size temp a : ℕ) (sp : k.Space)
      → (k.mmap size sp).0 ≡ some temp
      → Within a temp size
      → k.byte sp a ≡ none
  pub mmap_outside :
      (size temp a : ℕ) (sp : k.Space)
      → (k.mmap size sp).0 ≡ some temp
      → Outside a temp size
      → k.byte (k.mmap size sp).1 a ≡ k.byte sp a
  pub mmap_mapped :
      (size temp a : ℕ) (sp : k.Space)
      → (k.mmap size sp).0 ≡ some temp
      → Within a temp size
      → k.byte (k.mmap size sp).1 a ≢ none
  pub mmap_failed :
      (size a : ℕ) (sp : k.Space)
      → (k.mmap size sp).0 ≡ none
      → k.byte (k.mmap size sp).1 a ≡ k.byte sp a
  pub mmap_fixed_outside :
      (addr size a : ℕ) (sp : k.Space)
      → Outside a addr size
      → k.byte (k.mmap_fixed addr size sp).1 a ≡ k.byte sp a
  pub mmap_fixed_mapped :
      (addr size a : ℕ) (sp : k.Space)
      → (k.mmap_fixed addr size sp).0 ≡ true
      → Within a addr size
      → k.byte (k.mmap_fixed addr size sp).1 a ≢ none
  pub munmap_outside :
      (addr size a : ℕ) (sp : k.Space)
      → Outside a addr size
      → k.byte (k.munmap addr size sp).1 a ≡ k.byte sp a
  pub copy_within :
      (src dst size i : ℕ) (sp : k.Space)
      → i < size
      → ((j : ℕ) → j < size → k.byte sp (dst + j) ≢ none)
      → (dst + size ≤ src) ⊎ (src + size ≤ dst)
      → k.byte (k.copy src dst size sp) (dst + i) ≡ k.byte sp (src + i)
  pub copy_outside :
      (src dst size a : ℕ) (sp : k.Space)
      → Outside a dst size
      → k.byte (k.copy src dst size sp) a ≡ k.byte sp a

-- A positive multiple of the page size.
abbrev pub IsWhole : ℕ → Type 0
IsWhole size = (0 < size) × (size % page_size ≡ 0)

module _ (k : Kernel) (src size : ℕ) where
  -- The source is copied into the buffer `temp`, and unmapped then, and mapped anew.
  abbrev pub copied : (temp : ℕ) → k.Space → k.Space
  copied temp sp = k.copy src temp size (k.mmap size sp).1

  abbrev pub unmaps : (temp : ℕ) → k.Space → Bool
  unmaps temp sp = (k.munmap src size (copied temp sp)).0

  abbrev pub remaps : (temp : ℕ) → k.Space → Bool
  remaps temp sp = (k.mmap_fixed src size (k.munmap src size (copied temp sp)).1).0

  -- What a relocation answers, and what it leaves at an address `a` whose byte was `v`, for each of the
  -- answers that the kernel may give it.
  pub data Ending (a v : ℕ) (sp : k.Space) : Outcome CompactResult × k.Space → Type 0 where
    not_whole : (size ≡ 0) ⊎ (0 < size % page_size) → Ending a v sp (inl invalid_address, sp)
    no_buffer :
        {sp' : k.Space}
        → IsWhole size
        → (k.mmap size sp).0 ≡ none
        → k.byte sp' a ≡ some v
        → Ending a v sp (inl out_of_memory, sp')
    relocated :
        (temp : ℕ) {sp' : k.Space}
        → IsWhole size
        → (k.mmap size sp).0 ≡ some temp
        → unmaps temp sp ≡ true
        → remaps temp sp ≡ true
        → k.byte sp' a ≡ some v
        → Ending a v sp (inr success, sp')
    not_unmapped :
        (temp : ℕ) {sp' : k.Space}
        → IsWhole size
        → (k.mmap size sp).0 ≡ some temp
        → unmaps temp sp ≡ false
        → (k.byte sp' a ≡ some v) ⊎ (Within a src size × (remaps temp sp ≡ false))
        → Ending a v sp (inl (unknown (k.errno sp')), sp')
    not_remapped :
        (temp : ℕ) {sp' : k.Space}
        → IsWhole size
        → (k.mmap size sp).0 ≡ some temp
        → unmaps temp sp ≡ true
        → remaps temp sp ≡ false
        → (k.byte sp' a ≡ some v) ⊎ Within a src size
        → Ending a v sp (inl (unknown (k.errno sp')), sp')
