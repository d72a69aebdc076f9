-- ===== src/Simple/Chains.antt =====
-- The free lists as they lie in memory: from a head the first words of the blocks lead to an end.
use aethalloc.Prelude.{
  ℕ, zero, suc, ◌+◌, ◌*◌, ◌%◌, ◌^◌, ◌<◌, ◌≡◌, ◌≢◌, refl, ap, ap₂, arith, List, [], ◌∷◌, ◌++◌,
  length,
}
use aethalloc.Global.Memory.{Memory, store64, load64}
use aethalloc.Global.Words.{load64-store64, store64-apart}
use aethalloc.Global.Extents.{covers, blocks_cover}
use aethalloc.Global.Owners.Headers.{covers_in}

-- What the address of a free block is like.
abbrev pub IsBlock : ℕ → Type 0
IsBlock b = (0 < b) × (b % 16 ≡ 0) × (b < 2 ^ 64)

abbrev pub Seg : Memory → (end from : ℕ) → List ℕ → Type 0
Seg m end from [] = from ≡ end
Seg m end from (x ∷ xs) = (from ≡ x) × IsBlock x × Seg m end (load64 m x) xs

-- The words at two different multiples of 16 lie apart.
pub load64-store64_apart :
    (m : Memory) (b v x : ℕ)
    → b % 16 ≡ 0
    → x % 16 ≡ 0
    → x ≢ b
    → load64 (store64 m b v) x ≡ load64 m x
unfolding load64
load64-store64_apart m b v x p q ne =
    let low = store64-apart m b v x ne (λ e. omega arith) in
    let high = store64-apart m b v (x + 4) (λ e. omega arith) (λ e. ne (omega arith)) in
    ap₂ (λ (l h : ℕ). l + h * 2 ^ 32) low high

pub apart_of_cover : (b x len : ℕ) → 0 < len → covers b x len ≡ 0 → x ≢ b
apart_of_cover b x len p none e = omega (arith, covers_in b x len (omega arith) (omega arith))

module _ (m : Memory) (b v len : ℕ) (aligned : b % 16 ≡ 0) (some_bytes : 0 < len) where
  -- A list stays what it is if a word is written in a block that it does not hold.
  pub Seg-store64 :
      (end from : ℕ) (xs : List ℕ)
      → blocks_cover b len xs ≡ 0
      → Seg m end from xs
      → Seg (store64 m b v) end from xs
  Seg-store64 end from [] out seg = seg
  Seg-store64 end from (x ∷ xs) out seg =
      let (at, block, rest) = seg in
      let ne = apart_of_cover b x len some_bytes (omega arith) in
      let same = load64-store64_apart m b v x aligned block.1 ne in
      (at, block, rw same (Seg-store64 end (load64 m x) xs (omega arith) rest))

pub Seg-from_lt : (m : Memory) (from : ℕ) (xs : List ℕ) → Seg m 0 from xs → from < 2 ^ 64
Seg-from_lt m from [] seg = omega arith
Seg-from_lt m from (x ∷ xs) seg = omega (arith, seg.0, seg.1.2)

-- A block that is linked to the head of a list comes to be its first.
pub Seg-push :
    (m : Memory) (b len end from : ℕ) (xs : List ℕ)
    → IsBlock b
    → 0 < len
    → from < 2 ^ 64
    → blocks_cover b len xs ≡ 0
    → Seg m end from xs
    → Seg (store64 m b from) end b (b ∷ xs)
Seg-push m b len end from xs block p fits out seg = (
  refl,
  block,
  rw (load64-store64 m b from fits) (Seg-store64 m b from len block.1 p end from xs out seg),
)

pub Seg-join :
    (m : Memory) (end mid from : ℕ) (xs ys : List ℕ)
    → Seg m mid from xs
    → Seg m end mid ys
    → Seg m end from (xs ++ ys)
Seg-join m end mid from [] ys seg rest = rw seg rest
Seg-join m end mid from (x ∷ xs) ys seg rest =
    (seg.0, seg.1, Seg-join m end mid (load64 m x) xs ys seg.2 rest)

-- The block of a list that a number of others precede.
pub split_at {ℓ} :
    {A : Type ℓ} (k : ℕ) (xs : List A)
    → k < length xs
    → (ys : List A) × (z : A) × (zs : List A) × (xs ≡ ys ++ z ∷ zs) × (length ys ≡ k)
split_at k [] h = absurd (omega arith)
split_at zero (x ∷ xs) h = ([], x, xs, refl, refl)
split_at (suc k) (x ∷ xs) h =
    let (ys, z, zs, e, n) = split_at k xs (omega arith) in
    (x ∷ ys, z, zs, ap (λ t. x ∷ t) e, ap suc n)

-- A list up to its block `z`, and behind it.
pub Seg-split :
    (m : Memory) (end from z : ℕ) (ys zs : List ℕ)
    → Seg m end from (ys ++ z ∷ zs)
    → IsBlock z × Seg m (load64 m z) from (ys ++ z ∷ []) × Seg m end (load64 m z) zs
Seg-split m end from z [] zs seg = (seg.1, (seg.0, seg.1, refl), seg.2)
Seg-split m end from z (y ∷ ys) zs seg =
    let (block, left, right) = Seg-split m end (load64 m y) z ys zs seg.2 in
    (block, (seg.0, seg.1, left), right)

-- Another end is written in the last block of a list.
pub Seg-relink :
    (m : Memory) (len end from v z : ℕ) (ys : List ℕ)
    → 0 < len
    → v < 2 ^ 64
    → z % 16 ≡ 0
    → blocks_cover z len ys ≡ 0
    → Seg m end from (ys ++ z ∷ [])
    → Seg (store64 m z v) v from (ys ++ z ∷ [])
Seg-relink m len end from v z [] p fits aligned out seg = (seg.0, seg.1, load64-store64 m z v fits)
Seg-relink m len end from v z (y ∷ ys) p fits aligned out seg =
    let (at, block, rest) = seg in
    let ne = apart_of_cover z y len p (omega arith) in
    let same = load64-store64_apart m z v y aligned block.1 ne in
    (
      at,
      block,
      rw same (Seg-relink m len end (load64 m y) v z ys p fits aligned (omega arith) rest),
    )
