-- ===== src/Magazine/Laws.antt =====
-- A valid magazine is a stack of at most 64 blocks, the last one on top.
use aethalloc.Prelude.{
  ℕ, zero, suc, ◌+◌, ◌-◌, ◌*◌, min, ◌≤◌, ◌<◌, ◌≡◌, refl, ◌∙◌, ◌⊎◌, inl, inr, arith, true, false,
  none, some, List, [], ◌∷◌, ◌++◌, leb, ◌==◌, Bool-cases, length, get_or, set, take, length-set,
  take-set_end, take_last,
}
use mathlib.Core.List.{append_assoc, append-nil}
use aethalloc.Magazine.{Magazine, magazine_capacity, null, new, push, pop, bulk_write, bulk_init}

pub record IsValid (m : Magazine) : Type 0 where
  pub array : length m.blocks ≡ magazine_capacity
  pub within : m.count ≤ magazine_capacity

-- The blocks that a magazine holds, oldest first.
abbrev pub contents : Magazine → List ℕ
contents m = take m.count m.blocks

pub new-IsValid : IsValid new
unfolding new
new-IsValid = record { array = refl; within = omega arith }

pub contents-new : contents new ≡ []
unfolding new
contents-new = refl

-- `push` on a valid magazine adds a block on top below the capacity, and at the capacity refuses and changes nothing.
pub push_lem :
    {m : Magazine} (ptr : ℕ)
    → IsValid m
    → let (done, m') = push m ptr in
      ((m.count < magazine_capacity)
        × (done ≡ true)
        × (contents m' ≡ contents m ++ ptr ∷ [])
        × IsValid m')
      ⊎ ((m.count ≡ magazine_capacity) × (done ≡ false) × (m' ≡ m))
unfolding push
push_lem {m} ptr v = elim (Bool-cases (leb magazine_capacity m.count)) [
  | inl full ↦ inr (ground arith, ground arith, ground arith)
  | inr free ↦ inl (
    ground arith,
    ground arith,
    ground (arith, take-set_end m.count m.blocks ptr),
    ground (arith, length-set m.blocks m.count ptr),
  )
]

-- `pop` from a valid magazine takes the top block, and from an empty one nothing.
pub pop_lem :
    {m : Magazine}
    → IsValid m
    → let (out, m') = pop m in
      ((ptr : ℕ) × (out ≡ some ptr) × (contents m ≡ contents m' ++ ptr ∷ []) × IsValid m')
      ⊎ ((contents m ≡ []) × (out ≡ none) × (m' ≡ m))
unfolding pop
pop_lem {m} v = elim (Bool-cases (m.count == 0)) [
  | inl e ↦ inr (ground arith, ground arith, ground arith)
  | inr e ↦ inl (
    get_or m.blocks (m.count - 1) null,
    ground arith,
    ground (arith, take_last m.count m.blocks null),
    ground arith,
  )
]

-- The blocks `base + i * block_size`, for `n` indices from `i` on.
unfoldable pub carve : (base block_size i n : ℕ) → List ℕ
carve base block_size i zero = []
carve base block_size i (suc n) = (base + i * block_size) ∷ carve base block_size (i + 1) n

length-bulk_write :
    (n : ℕ) (blocks : List ℕ) (count base block_size i : ℕ)
    → length (bulk_write blocks count base block_size i n) ≡ length blocks
unfolding bulk_write
length-bulk_write zero blocks count base block_size i = refl
length-bulk_write (suc n) blocks count base block_size i =
    length-bulk_write n _ count base block_size (i + 1) ∙ length-set blocks (count + i) _

take-bulk_write :
    (n : ℕ) (blocks : List ℕ) (count base block_size i : ℕ)
    → count + i + n ≤ length blocks
    → take (count + i + n) (bulk_write blocks count base block_size i n)
      ≡ take (count + i) blocks ++ carve base block_size i n
unfolding bulk_write carve
take-bulk_write zero blocks count base block_size i h =
    let e : count + i + 0 ≡ count + i = omega arith in rw (e, append-nil)
take-bulk_write (suc n) blocks count base block_size i h =
    let v = base + i * block_size in
    let e : count + i + suc n ≡ count + (i + 1) + n = omega arith in
    let f : count + (i + 1) ≡ count + i + 1 = omega arith in
    let long : count + (i + 1) + n ≤ length (set blocks (count + i) v) =
      omega (arith, length-set blocks (count + i) v) in
    rw e (
      take-bulk_write n (set blocks (count + i) v) count base block_size (i + 1) long
      ∙ rw (f, take-set_end (count + i) blocks v (omega arith))
          (append_assoc (take (count + i) blocks) (v ∷ []) (carve base block_size (i + 1) n)))

-- `bulk_init` of a valid magazine adds as many of the blocks as fit, in order of their addresses.
pub bulk_init_lem :
    {m : Magazine} (base block_size n : ℕ)
    → IsValid m
    → let m' = bulk_init m base block_size n in
      IsValid m'
      × (contents m' ≡ contents m ++ carve base block_size 0 (min n (magazine_capacity - m.count)))
unfolding bulk_init
bulk_init_lem {m} base block_size n v =
    let k : ℕ = min n (magazine_capacity - m.count) in
    let e : m.count + 0 ≡ m.count = omega arith in
    (
      record {
        array = length-bulk_write k m.blocks m.count base block_size 0 ∙ v.array;
        within = omega arith;
      },
      rw e at (take-bulk_write k m.blocks m.count base block_size 0 (omega arith)),
    )
