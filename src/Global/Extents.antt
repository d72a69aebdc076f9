-- ===== src/Global/Extents.antt =====
-- Which addresses belong to what. At an address every extent counts 0 or 1, so that two extents are
-- apart where their sum is nowhere above 1.
use aethalloc.Prelude.{
  ℕ, zero, suc, ◌+◌, ◌-◌, ◌*◌, ◌^◌, ◌≤◌, ◌<◌, ◌≡◌, ◌∙◌, ap, arith, List, [], ◌∷◌, ◌++◌, ◌&&◌, leb,
  ltb, if◌then◌else◌, length, set, total, total_from, total-append, total_from-set_first,
}
use aethalloc.Magazine
use aethalloc.Magazine.{Magazine, magazine_capacity}
use aethalloc.Magazine.Laws.{contents, carve}
use aethalloc.Page.{Call, mmap, munmap}
use aethalloc.Global.Memory.{cache_header_size}
use aethalloc.Global.State.{State, GlobalMagazinePool, new_pool, alloc_mag, free_mag, pool}

-- 1 if the address lies in the `len` bytes from `base` on.
unfoldable pub covers : (a base len : ℕ) → ℕ
covers a base len = if leb base a && ltb a (base + len) then 1 else 0

-- The bytes of a block of a class, its header included.
abbrev pub block_size : ℕ → ℕ
block_size class = 2 ^ (class + 4) + cache_header_size

abbrev pub blocks_cover : (a len : ℕ) → List ℕ → ℕ
blocks_cover a len = total (λ b. covers a b len)

abbrev pub magazine_cover : (a class : ℕ) → Magazine → ℕ
magazine_cover a class m = blocks_cover a (block_size class) (contents m)

abbrev pub pool_cover : (a class : ℕ) → GlobalMagazinePool → ℕ
pool_cover a class p = total (λ n. magazine_cover a class n.magazine) p.full

-- The free blocks that the address lies in.
abbrev pub cached : ℕ → State → ℕ
cached a st =
    total_from (magazine_cover a) 0 st.alloc_mags
    + total_from (magazine_cover a) 0 st.free_mags
    + total_from (pool_cover a) 0 st.pools

-- The mappings that the address lies in, by the log of the calls.
abbrev pub mapped : ℕ → List Call → ℕ
mapped a [] = 0
mapped a (mmap base len ∷ calls) = covers a base len + mapped a calls
mapped a (munmap base len ∷ calls) = mapped a calls - covers a base len

pub covers-le : (a base len : ℕ) → covers a base len ≤ 1
unfolding covers
covers-le a base len = ground arith

pub covers_split :
    (a base x y len : ℕ) → x + y ≤ len → covers a base x + covers a (base + x) y ≤ covers a base len
unfolding covers
covers_split a base x y len h = ground arith

-- Blocks carved side by side lie apart, within the bytes that they fill.
pub carve_cover :
    (n a base size i : ℕ)
    → blocks_cover a size (carve base size i n) ≤ covers a (base + i * size) (n * size)
unfolding carve
carve_cover zero a base size i = omega arith
carve_cover (suc n) a base size i =
    let next : base + (i + 1) * size ≡ base + i * size + size = omega arith in
    omega (
      arith,
      rw next at (carve_cover n a base size (i + 1)),
      covers_split a (base + i * size) size (n * size) (suc n * size) (omega arith),
    )

pub alloc_mags_cover :
    (a class : ℕ) (st : State) (m : Magazine)
    → class < length st.alloc_mags
    → total_from (magazine_cover a) 0 (set st.alloc_mags class m)
        + magazine_cover a class (alloc_mag st class)
      ≡ total_from (magazine_cover a) 0 st.alloc_mags + magazine_cover a class m
alloc_mags_cover a class st m h =
    total_from-set_first (magazine_cover a) st.alloc_mags class m Magazine.new h

pub free_mags_cover :
    (a class : ℕ) (st : State) (m : Magazine)
    → class < length st.free_mags
    → total_from (magazine_cover a) 0 (set st.free_mags class m)
        + magazine_cover a class (free_mag st class)
      ≡ total_from (magazine_cover a) 0 st.free_mags + magazine_cover a class m
free_mags_cover a class st m h =
    total_from-set_first (magazine_cover a) st.free_mags class m Magazine.new h

pub pools_cover :
    (a class : ℕ) (st : State) (p : GlobalMagazinePool)
    → class < length st.pools
    → total_from (pool_cover a) 0 (set st.pools class p) + pool_cover a class (pool st class)
      ≡ total_from (pool_cover a) 0 st.pools + pool_cover a class p
pools_cover a class st p h = total_from-set_first (pool_cover a) st.pools class p new_pool h

-- What a magazine holds besides its top block.
pub top_cover :
    (a class : ℕ) (rest : List ℕ) (m : Magazine) (ptr : ℕ)
    → contents m ≡ rest ++ ptr ∷ []
    → magazine_cover a class m
      ≡ blocks_cover a (block_size class) rest + covers a ptr (block_size class)
top_cover a class rest m ptr e =
    let len = block_size class in
    ap (blocks_cover a len) e
    ∙ total-append (λ (b : ℕ). covers a b len) rest (ptr ∷ [])
    ∙ omega arith
