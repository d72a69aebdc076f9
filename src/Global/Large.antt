-- ===== src/Global/Large.antt =====
-- The path of the large allocations: where the pointer lies, and what is read back from the headers.
use native.Mathlib.Nat.{mod-mod_of_dvd, dvd_of_mod-eq-zero}
use aethalloc.Prelude.{
  ℕ, zero, suc, ◌+◌, ◌-◌, ◌*◌, ◌%◌, ◌^◌, ◌≤◌, ◌<◌, ◌≡◌, ◌∙◌, sym, ap, arith, div_ceil_bounds,
  pow_mono, pow_split,
}
use aethalloc.Page.{page_size}
use aethalloc.Global.Memory.{
  magic, large_magic, large_header_size, read_page_header, read_large_header, align_up,
}
use aethalloc.Global.Words.{
  read-write_page_header, read-write_large_header, read_page_header-write_large_header,
  align_up_bounds,
}
use aethalloc.Global.State.{State}
use aethalloc.Global.Alloc.{Layout, IsLayout, large_pages, place_large}

pub large_pages_hold : (l : Layout) → 32 + l.size + l.align ≤ large_pages l * page_size
unfolding large_pages
large_pages_hold l = omega (arith, div_ceil_bounds (16 + 16 + l.size + l.align) 4096 (omega arith))

pow_16 : (j : ℕ) → 2 ^ (4 + j) % 16 ≡ 0
pow_16 j = omega (arith, pow_split j 4)

-- A multiple of a power of two next above a multiple of 16 is one too.
multiple_of_16 : (j b p : ℕ) → b % 16 ≡ 0 → p % 2 ^ j ≡ 0 → b ≤ p → p < b + 2 ^ j → p % 16 ≡ 0
multiple_of_16 zero b p hb hp lo hi = omega arith
multiple_of_16 (suc zero) b p hb hp lo hi = omega arith
multiple_of_16 (suc (suc zero)) b p hb hp lo hi = omega arith
multiple_of_16 (suc (suc (suc zero))) b p hb hp lo hi = omega arith
multiple_of_16 (suc (suc (suc (suc j)))) b p hb hp lo hi =
    let back : suc (suc (suc (suc j))) ≡ 4 + j = omega arith in
    let hp' = rw back at hp in
    sym (mod-mod_of_dvd _ p (dvd_of_mod-eq-zero _ (pow_16 j))) ∙ ap (λ (r : ℕ). r % 16) hp'

-- What the memory shows of a large allocation at `base`.
pub record IsLarge (base : ℕ) (l : Layout) (ptr : ℕ) (st : State) : Type 0 where
  pub above : base + 32 ≤ ptr
  pub within : ptr + l.size ≤ base + large_pages l * page_size
  pub aligned : ptr % l.align ≡ 0
  pub aligned_16 : ptr % 16 ≡ 0
  pub large_header :
      read_large_header st.memory (ptr - large_header_size)
      ≡ record { magic_word = large_magic; base_ptr = base }
  pub page_header :
      read_page_header st.memory base
      ≡ record { magic_word = magic; num_pages = large_pages l % 2 ^ 32; requested_size = l.size }

pub place_large-IsLarge :
    {l : Layout} (base : ℕ) (st : State)
    → IsLayout l
    → base % page_size ≡ 0
    → base < 2 ^ 47
    → let (ptr, st') = place_large l base st in IsLarge base l ptr st'
unfolding place_large
place_large-IsLarge {l} base st ok at low =
    let j = ok.log_align in
    let user = align_up (base + 16 + 16) l.align in
    let (mult, ge, lt) =
      align_up_bounds (base + 16 + 16) j (omega arith)
        (omega (arith, ok.log_small, pow_mono j 62 ok.log_small)) in
    let e = ok.power in
    let lo : base + 32 ≤ user = rw e (omega (arith, ge)) in
    let hi : user < base + 32 + l.align = rw e (omega (arith, lt)) in
    record {
      above = lo;
      within = omega (arith, lo, hi, large_pages_hold l);
      aligned = rw e mult;
      aligned_16 = rw e (multiple_of_16 j (base + 16 + 16) _ (omega arith) mult ge lt);
      large_header = read-write_large_header _ (user - 16) _ (omega arith) (omega arith);
      page_header =
          read_page_header-write_large_header _ base (user - 16) _ (omega (arith, lo))
          ∙ read-write_page_header st.memory base _ (omega arith) (omega (arith, ok.fits));
    }
