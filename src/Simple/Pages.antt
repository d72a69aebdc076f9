-- ===== src/Simple/Pages.antt =====
-- New pages, and the blocks that they are cut into.
use native.Mathlib.Nat.{mul-le-mul_right}
use aethalloc.Prelude.{
  ◌/◌, ℕ, zero, suc, ◌+◌, ◌*◌, ◌%◌, ◌^◌, ◌≤◌, ◌<◌, ◌≡◌, refl, ◌∙◌, ap, arith, none, some, [], ◌∷◌,
  inl, inr, set, length, get_or-set_self,
}
use aethalloc.Page.{Os, Call, AnswersOk, page_size}
use aethalloc.Global.Memory.{num_size_classes}
use aethalloc.Global.Extents.{covers, block_size, mapped}
use aethalloc.Global.Owners.Headers.{covers_in}
use aethalloc.Global.Mapping.{Refused, mmap-Ok, alloc_pos, mmap-calls, mmap_failed}
use aethalloc.Simple.{State, page_alloc, push_local}
use aethalloc.Simple.Alloc.{push_blocks}
use aethalloc.Simple.Chains.{IsBlock}
use aethalloc.Simple.Invariant.{Lists, class_list, free_cover, Kept}
use aethalloc.Simple.Moves.{
  Moved, nothing, stays, then_moved, besides, same_bytes, push_local-Moved,
}
use aethalloc.Simple.Batches.{SameElsewhere, set-SameElsewhere}

-- What the kernel answers, with what is logged of it.
pub data Mapping (pages : ℕ) (st : State) : Type 0 where
  mapped_at :
      (addr : ℕ)
      → (page_alloc pages st).0 ≡ some addr
      → addr % 4096 ≡ 0
      → 0 < addr
      → addr < 2 ^ 47
      → (page_alloc pages st).1.os.calls ≡ Call.mmap addr (pages * page_size % 2 ^ 64) ∷ st.os.calls
      → Mapping pages st
  refused :
      (page_alloc pages st).0 ≡ none
      → Refused st.os.answers
      → (page_alloc pages st).1.os.calls ≡ st.os.calls
      → Mapping pages st

pub page_alloc-Mapping :
    (pages : ℕ) (st : State)
    → 0 < pages
    → AnswersOk st.os.answers
    → Mapping pages st × AnswersOk (page_alloc pages st).1.os.answers
unfolding page_alloc
page_alloc-Mapping pages st p ok =
    let size = pages * 4096 % 2 ^ 64 in
    let e = alloc_pos pages st.os p in
    let (ok', got) = mmap-Ok st.os.answers size st.os.calls ok in
    (
      elim got [
        | inl (addr, at, aligned, pos, low) ↦
            mapped_at addr (rw e at) aligned pos low
              (rw e (mmap-calls st.os.answers size st.os.calls addr at))
        | inr (failed, r) ↦
            refused (rw e failed) r (rw e (mmap_failed st.os.answers size st.os.calls ok failed))
      ],
      rw e ok',
    )

pub with_os-Kept :
    {st : State} {ls gs : Lists} (os : Os)
    → AnswersOk os.answers
    → Kept st ls gs
    → Kept (record st { os = os }) ls gs
with_os-Kept os ok kept = record {
  local_lists = kept.local_lists;
  global_lists = kept.global_lists;
  counted = kept.counted;
  heads_length = kept.heads_length;
  counts_length = kept.counts_length;
  free_lists_length = kept.free_lists_length;
  locals_length = kept.locals_length;
  globals_length = kept.globals_length;
  answers_ok = ok;
}

pub covers_join : (a base x y : ℕ) → covers a base x + covers a (base + x) y ≡ covers a base (x + y)
unfolding covers
covers_join a base x y = ground arith

covers_within : (a base x y : ℕ) → x ≤ y → covers a base x ≤ covers a base y
unfolding covers
covers_within a base x y h = ground arith

-- A mapping gives the bytes at its start, up to its length.
pub page_alloc-Moved :
    (pages addr bytes : ℕ) {st : State} {ls gs : Lists}
    → bytes ≤ pages * page_size
    → pages * page_size < 2 ^ 64
    → (page_alloc pages st).1.os.calls ≡ Call.mmap addr (pages * page_size % 2 ^ 64) ∷ st.os.calls
    → AnswersOk (page_alloc pages st).1.os.answers
    → Kept st ls gs
    → Moved nothing (λ a. covers a addr bytes) st ls gs (page_alloc pages st).1 ls gs
unfolding page_alloc
page_alloc-Moved pages addr bytes {st} h fits calls ok kept = record {
  kept = with_os-Kept ((page_alloc pages st).1.os) ok kept;
  grown = λ a. omega (
    arith,
    ap (mapped a) calls,
    covers_within a addr bytes (pages * page_size % 2 ^ 64) (omega arith),
  );
  none_lost = λ a. omega arith;
  outside = λ a none. refl;
}

pub page_alloc_failed-Moved :
    (pages : ℕ) {st : State} {ls gs : Lists}
    → (page_alloc pages st).1.os.calls ≡ st.os.calls
    → AnswersOk (page_alloc pages st).1.os.answers
    → Kept st ls gs
    → Moved nothing nothing st ls gs (page_alloc pages st).1 ls gs
unfolding page_alloc
page_alloc_failed-Moved pages {st} calls ok kept = record {
  kept = with_os-Kept ((page_alloc pages st).1.os) ok kept;
  grown = λ a. omega (arith, ap (mapped a) calls);
  none_lost = λ a. omega arith;
  outside = λ a none. refl;
}

pub push_blocks-os :
    (left class base size i : ℕ) (st : State) → (push_blocks class base size i left st).os ≡ st.os
unfolding push_blocks push_local
push_blocks-os zero class base size i st = refl
push_blocks-os (suc left) class base size i st =
    push_blocks-os left class base size (i + 1) (push_local class (base + i * size) st)

block_aligned : (base i size : ℕ) → base % 16 ≡ 0 → size % 16 ≡ 0 → (base + i * size) % 16 ≡ 0
block_aligned base i size p q =
    let e : size ≡ 16 * (size / 16) = omega arith in omega (arith, ap (λ (x : ℕ). i * x) e)

under : (i left : ℕ) → i ≤ i + suc left
under i left = omega arith

-- The blocks that are cut from bytes outside of the lists come into the list of the class.
pub push_blocks-Moved :
    (left class base i : ℕ) {st : State} {ls gs : Lists}
    → class < num_size_classes
    → base % 16 ≡ 0
    → 0 < base
    → base + (i + left) * block_size class < 2 ^ 64
    → block_size class % 16 ≡ 0
    → length (class_list ls class) + left < 2 ^ 32
    → ((a : ℕ)
        → free_cover a ls gs + covers a (base + i * block_size class) (left * block_size class) ≤ 1)
    → Kept st ls gs
    → (ls' : Lists) × Moved
        (λ a. covers a (base + i * block_size class) (left * block_size class))
        nothing
        st
        ls
        gs
        (push_blocks class base (block_size class) i left st)
        ls'
        gs
      × SameElsewhere class ls ls'
      × (length (class_list ls' class) ≡ length (class_list ls class) + left)
unfolding push_blocks covers push_local
push_blocks-Moved zero class base i {st} {ls} {gs} lt al pos fits mult short single kept =
    (ls, same_bytes (λ a. ground arith) (λ a. refl) (stays kept), λ c ne. refl, omega arith)
push_blocks-Moved (suc left) class base i {st} {ls} {gs} lt al pos fits mult short single kept =
    let size = block_size class in
    let b = base + i * size in
    let next : base + (i + 1) * size ≡ b + size = omega arith in
    let more : suc left * size ≡ size + left * size = omega arith in
    let first = λ (a : ℕ). covers_join a b size (left * size) in
    let is_block : IsBlock b = (
      omega arith,
      block_aligned base i size al mult,
      omega (arith, fits, mul-le-mul_right size (under i left)),
    ) in
    let own = covers_in b b size (omega arith) (omega arith) in
    let single' = rw more at single in
    let step =
      push_local-Moved {st = st} {ls = ls} {gs = gs} class b lt is_block
        (omega (arith, own, single' b, first b)) (omega arith) kept in
    let ls1 = set ls class (b ∷ class_list ls class) in
    let longer1 : class_list ls1 class ≡ b ∷ class_list ls class =
      get_or-set_self ls class _ [] (omega (arith, kept.locals_length)) in
    let (ls', rest, elsewhere, longer) =
      push_blocks-Moved left class base (i + 1) {st = push_local class b st} {ls = ls1} {gs = gs} lt
        al pos (let e : i + 1 + left ≡ i + suc left = omega arith in rw e fits) mult
        (omega (arith, ap length longer1))
        (rw next (λ a. omega (arith, single' a, first a, step.grown a))) step.kept in
    (
      ls',
      same_bytes (λ a. rw more (first a)) (λ a. omega arith)
          (then_moved (besides (λ a. covers a (b + size) (left * size)) step)
            (same_bytes (λ a. omega arith) (λ a. refl) (rw next at rest))),
      λ c ne. elsewhere c ne ∙ set-SameElsewhere class ls _ c ne,
      omega (arith, longer, ap length longer1),
    )
