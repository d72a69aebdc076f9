-- ===== src/Prelude/Sums.antt =====
-- Sums over lists, also with the position of each item.
use Prim.Native.Nat.{ℕ, zero, suc, ◌+◌, ◌<◌}
use mathlib.Core.Path.{◌≡◌, refl}
use mathlib.Core.List.{List, [], ◌∷◌, ◌++◌}
use native.Mathlib.Omega.{arith}
use aethalloc.Prelude.Lists.{length, get_or, set, replicate}

module _ {ℓ} {A : Type ℓ} where
  abbrev pub total : (A → ℕ) → List A → ℕ
  total f [] = 0
  total f (x ∷ xs) = f x + total f xs

  abbrev pub total_from : (ℕ → A → ℕ) → ℕ → List A → ℕ
  total_from f j [] = 0
  total_from f j (x ∷ xs) = f j x + total_from f (suc j) xs

module _ {ℓ} {A : Type ℓ} where
  pub total-append : (f : A → ℕ) (xs ys : List A) → total f (xs ++ ys) ≡ total f xs + total f ys
  total-append f [] ys = omega arith
  total-append f (x ∷ xs) ys = omega (arith, total-append f xs ys)

  -- What a write takes away and what it brings.
  pub total_from-set :
      (f : ℕ → A → ℕ) (j : ℕ) (xs : List A) (i : ℕ) (v d : A)
      → i < length xs
      → total_from f j (set xs i v) + f (j + i) (get_or xs i d) ≡ total_from f j xs + f (j + i) v
  total_from-set f j [] i v d h = absurd (omega arith)
  total_from-set f j (x ∷ xs) zero v d h = let e : j + 0 ≡ j = omega arith in rw e (omega arith)
  total_from-set f j (x ∷ xs) (suc i) v d h =
      let e : j + suc i ≡ suc j + i = omega arith in
      rw e (omega (arith, total_from-set f (suc j) xs i v d (omega arith)))

  pub total_from-set_first :
      (f : ℕ → A → ℕ) (xs : List A) (i : ℕ) (v d : A)
      → i < length xs
      → total_from f 0 (set xs i v) + f i (get_or xs i d) ≡ total_from f 0 xs + f i v
  total_from-set_first f xs i v d h =
      let e : 0 + i ≡ i = omega arith in rw e at (total_from-set f 0 xs i v d h)

  pub total_from-replicate :
      (f : ℕ → A → ℕ) (j n : ℕ) (v : A) → ((k : ℕ) → f k v ≡ 0) → total_from f j (replicate n v) ≡ 0
  total_from-replicate f j zero v h = refl
  total_from-replicate f j (suc n) v h = omega (arith, h j, total_from-replicate f (suc j) n v h)
