-- ===== src/Page.antt =====
-- aethalloc-core/src/page.rs over the system calls `mmap` and `munmap`. The answers of `mmap` are
-- an input, taken in order; once they are used up it fails. The calls are logged, last one first.
use aethalloc.Prelude.{
  ℕ, ◌*◌, ◌%◌, ◌^◌, ◌<◌, ◌≡◌, Option, none, some, List, [], ◌∷◌, ◌==◌, if◌then◌else◌,
}

abbrev pub page_size : ℕ
page_size = 4096

pub data Call : Type 0 where
  mmap munmap : (addr size : ℕ) → Call

pub record Os : Type 0 where
  pub answers : List (Option ℕ)
  pub calls : List Call

-- `NonNull::new`, and `MAP_FAILED` is `none`.
abbrev non_null : Option ℕ → Option ℕ
non_null none = none
non_null (some addr) = if addr == 0 then none else some addr

abbrev pub call_mmap : List (Option ℕ) → ℕ → List Call → Option ℕ × Os
call_mmap [] size calls = (none, record { answers = []; calls = calls })
call_mmap (none ∷ rest) size calls = (none, record { answers = rest; calls = calls })
call_mmap (some addr ∷ rest) size calls =
    (non_null (some addr), record { answers = rest; calls = Call.mmap addr size ∷ calls })

-- A request of no pages gets the dangling pointer, whose address is 1.
unfoldable pub alloc : ℕ → Os → Option ℕ × Os
alloc pages os =
    if pages == 0 then (some 1, os) else call_mmap os.answers (pages * page_size % 2 ^ 64) os.calls

unfoldable pub dealloc : (addr pages : ℕ) → Os → Os
dealloc addr pages os =
    if pages == 0
    then os
    else record os { calls = Call.munmap addr (pages * page_size % 2 ^ 64) ∷ os.calls }

-- What the kernel promises of an answer: a page boundary inside the address space.
abbrev pub AnswerOk : Option ℕ → Type 0
AnswerOk none = Unit {0}
AnswerOk (some addr) = (addr % page_size ≡ 0) × (0 < addr) × (addr < 2 ^ 47)

abbrev pub AnswersOk : List (Option ℕ) → Type 0
AnswersOk [] = Unit {0}
AnswersOk (a ∷ rest) = AnswerOk a × AnswersOk rest
