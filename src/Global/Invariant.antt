-- ===== src/Global/Invariant.antt =====
-- The invariant of the allocator's state: magazines are valid and hold 16-byte aligned blocks.
use aethalloc.Prelude.{
  ℕ, zero, suc, ◌+◌, ◌-◌, ◌*◌, ◌%◌, ◌≡◌, refl, ◌∙◌, ap, ◌/◌, subst, sym, arith, min, none, some, [],
  ◌∷◌, ◌⊎◌, inl, inr, set, length, length-set, All, All-append, All-append_left, All-append_right,
  All-get_or, All-set, All-replicate,
}
use aethalloc.Global.Memory.{num_size_classes}
use aethalloc.Magazine
use aethalloc.Magazine.{Magazine, magazine_capacity}
use aethalloc.Magazine.Laws.{
  IsValid, contents, carve, new-IsValid, contents-new, push_lem, pop_lem, bulk_init_lem,
}
use aethalloc.Page.{Os, AnswersOk}
use aethalloc.Global.Metrics.{Metrics}
use aethalloc.Global.State.{
  State, MagazineNode, GlobalMagazinePool, new_pool, start, alloc_mag, free_mag, pool, maybe_flush,
}

abbrev pub Aligned16 : ℕ → Type 0
Aligned16 a = a % 16 ≡ 0

pub record MagazineOk (m : Magazine) : Type 0 where
  pub valid : IsValid m
  pub aligned : All Aligned16 (contents m)

abbrev pub PoolOk : GlobalMagazinePool → Type 0
PoolOk p = All (λ (n : MagazineNode). MagazineOk n.magazine) p.full

pub record StateOk (st : State) : Type 0 where
  pub alloc_ok : All MagazineOk st.alloc_mags
  pub free_ok : All MagazineOk st.free_mags
  pub pools_ok : All PoolOk st.pools
  pub answers_ok : AnswersOk st.os.answers
  pub alloc_length : length st.alloc_mags ≡ num_size_classes
  pub free_length : length st.free_mags ≡ num_size_classes
  pub pools_length : length st.pools ≡ 13

pub new-MagazineOk : MagazineOk Magazine.new
new-MagazineOk = record {
  valid = new-IsValid;
  aligned = subst (All Aligned16) (sym contents-new) tt;
}

pub clear-MagazineOk : {m : Magazine} → MagazineOk m → MagazineOk (Magazine.clear m)
unfolding Magazine.clear
clear-MagazineOk ok = record {
  valid = record { array = ok.valid.array; within = omega arith };
  aligned = tt;
}

carve-aligned :
    (n base block_size i : ℕ)
    → Aligned16 base
    → Aligned16 block_size
    → All Aligned16 (carve base block_size i n)
unfolding carve
carve-aligned zero base block_size i p q = tt
carve-aligned (suc n) base block_size i p q = (
  (let e : block_size ≡ 16 * (block_size / 16) = omega arith in
      omega (arith, ap (λ (x : ℕ). i * x) e)),
  carve-aligned n base block_size (i + 1) p q,
)

pub bulk_init-MagazineOk :
    {m : Magazine} (base block_size n : ℕ)
    → MagazineOk m
    → Aligned16 base
    → Aligned16 block_size
    → MagazineOk (Magazine.bulk_init m base block_size n)
bulk_init-MagazineOk {m} base block_size n ok p q =
    let (valid, e) = bulk_init_lem base block_size n ok.valid in
    record {
      valid = valid;
      aligned = subst (All Aligned16) (sym e) (
          All-append Aligned16 (contents m) _ ok.aligned
            (carve-aligned (min n (magazine_capacity - m.count)) base block_size 0 p q));
    }

pub push-MagazineOk :
    {m : Magazine} (ptr : ℕ) → MagazineOk m → Aligned16 ptr → MagazineOk (Magazine.push m ptr).1
push-MagazineOk {m} ptr ok p = elim (push_lem ptr ok.valid) [
  | inl (room, done, e, valid) ↦ record {
    valid = valid;
    aligned =
        subst (All Aligned16) (sym e)
          (All-append Aligned16 (contents m) (ptr ∷ []) ok.aligned (p, tt));
  }
  | inr (full, done, e) ↦ subst MagazineOk (sym e) ok
]

-- What `pop` returns of a good magazine.
pub pop-MagazineOk :
    {m : Magazine}
    → MagazineOk m
    → MagazineOk (Magazine.pop m).1
      × (((ptr : ℕ) × ((Magazine.pop m).0 ≡ some ptr) × Aligned16 ptr)
          ⊎ ((Magazine.pop m).0 ≡ none))
pop-MagazineOk {m} ok = elim (pop_lem ok.valid) [
  | inl (ptr, out, e, valid) ↦
      let split = subst (All Aligned16) e ok.aligned in
      (
        record {
          valid = valid;
          aligned = All-append_left Aligned16 (contents (Magazine.pop m).1) (ptr ∷ []) split;
        },
        inl (
          ptr,
          out,
          (All-append_right Aligned16 (contents (Magazine.pop m).1) (ptr ∷ []) split).0,
        ),
      )
  | inr (held, out, e) ↦ (subst MagazineOk (sym e) ok, inr out)
]

pub alloc_mag-Ok : (class : ℕ) {st : State} → StateOk st → MagazineOk (alloc_mag st class)
alloc_mag-Ok class {st} ok =
    All-get_or MagazineOk st.alloc_mags class Magazine.new ok.alloc_ok new-MagazineOk

pub free_mag-Ok : (class : ℕ) {st : State} → StateOk st → MagazineOk (free_mag st class)
free_mag-Ok class {st} ok =
    All-get_or MagazineOk st.free_mags class Magazine.new ok.free_ok new-MagazineOk

pub pool-Ok : (class : ℕ) {st : State} → StateOk st → PoolOk (pool st class)
pool-Ok class {st} ok = All-get_or PoolOk st.pools class new_pool ok.pools_ok tt

pub maybe_flush-Ok : {st : State} → StateOk st → StateOk (maybe_flush st)
unfolding maybe_flush
maybe_flush-Ok ok = record {
  alloc_ok = ok.alloc_ok;
  free_ok = ok.free_ok;
  pools_ok = ok.pools_ok;
  answers_ok = ok.answers_ok;
  alloc_length = ok.alloc_length;
  free_length = ok.free_length;
  pools_length = ok.pools_length;
}

pub with_metrics-Ok : {st : State} (m : Metrics) → StateOk st → StateOk (record st { metrics = m })
with_metrics-Ok m ok = record {
  alloc_ok = ok.alloc_ok;
  free_ok = ok.free_ok;
  pools_ok = ok.pools_ok;
  answers_ok = ok.answers_ok;
  alloc_length = ok.alloc_length;
  free_length = ok.free_length;
  pools_length = ok.pools_length;
}

pub with_alloc_mag-Ok :
    (class : ℕ) {st : State} {m : Magazine}
    → StateOk st
    → MagazineOk m
    → StateOk (record st { alloc_mags = set st.alloc_mags class m })
with_alloc_mag-Ok class {st} {m} ok good = record {
  alloc_ok = All-set MagazineOk st.alloc_mags class m ok.alloc_ok good;
  free_ok = ok.free_ok;
  pools_ok = ok.pools_ok;
  answers_ok = ok.answers_ok;
  alloc_length = length-set st.alloc_mags class m ∙ ok.alloc_length;
  free_length = ok.free_length;
  pools_length = ok.pools_length;
}

pub with_free_mag-Ok :
    (class : ℕ) {st : State} {m : Magazine}
    → StateOk st
    → MagazineOk m
    → StateOk (record st { free_mags = set st.free_mags class m })
with_free_mag-Ok class {st} {m} ok good = record {
  alloc_ok = ok.alloc_ok;
  free_ok = All-set MagazineOk st.free_mags class m ok.free_ok good;
  pools_ok = ok.pools_ok;
  answers_ok = ok.answers_ok;
  alloc_length = ok.alloc_length;
  free_length = length-set st.free_mags class m ∙ ok.free_length;
  pools_length = ok.pools_length;
}

pub with_pool-Ok :
    (class : ℕ) {st : State} (p : GlobalMagazinePool)
    → StateOk st
    → PoolOk p
    → StateOk (record st { pools = set st.pools class p })
with_pool-Ok class {st} p ok good = record {
  alloc_ok = ok.alloc_ok;
  free_ok = ok.free_ok;
  pools_ok = All-set PoolOk st.pools class p ok.pools_ok good;
  answers_ok = ok.answers_ok;
  alloc_length = ok.alloc_length;
  free_length = ok.free_length;
  pools_length = length-set st.pools class p ∙ ok.pools_length;
}

pub start-Ok : (memory : ℕ → ℕ) (os : Os) → AnswersOk os.answers → StateOk (start memory os)
start-Ok memory os h = record {
  alloc_ok = All-replicate MagazineOk 14 Magazine.new new-MagazineOk;
  free_ok = All-replicate MagazineOk 14 Magazine.new new-MagazineOk;
  pools_ok = All-replicate PoolOk 13 new_pool tt;
  answers_ok = h;
  alloc_length = refl;
  free_length = refl;
  pools_length = refl;
}
