-- ===== src/Global/Mapping.antt =====
-- What a request for pages answers, and what is logged of it.
use aethalloc.Prelude.{
  ℕ, ◌*◌, ◌%◌, ◌^◌, ◌<◌, ◌≡◌, refl, arith, Option, none, some, List, [], ◌∷◌, ◌⊎◌, inl, inr,
}
use aethalloc.Page
use aethalloc.Page.{Os, AnswersOk, Call, page_size}
use aethalloc.Global.State.{State, page_alloc}
use aethalloc.Global.Invariant.{StateOk}

-- The next answer of `mmap` is a failure.
abbrev pub Refused : List (Option ℕ) → Type 0
Refused [] = Unit {0}
Refused (none ∷ rest) = Unit {0}
Refused (some addr ∷ rest) = ⊥

pub mmap-Ok :
    (answers : List (Option ℕ)) (size : ℕ) (calls : List Call)
    → AnswersOk answers
    → let (base, os) = Page.call_mmap answers size calls in
      AnswersOk os.answers
      × (((addr : ℕ) × (base ≡ some addr) × (addr % 4096 ≡ 0) × (0 < addr) × (addr < 2 ^ 47))
          ⊎ ((base ≡ none) × Refused answers))
mmap-Ok [] size calls h = (tt, inr (refl, tt))
mmap-Ok (none ∷ rest) size calls h = (h.1, inr (refl, tt))
mmap-Ok (some addr ∷ rest) size calls h = (h.1, inl (addr, ground arith, h.0.0, h.0.1, h.0.2))

pub alloc_pos :
    (pages : ℕ) (os : Os)
    → 0 < pages
    → Page.alloc pages os ≡ Page.call_mmap os.answers (pages * 4096 % 2 ^ 64) os.calls
unfolding Page.alloc
alloc_pos pages os p = ground arith

-- A page request answers with a page boundary, or with nothing.
pub page_alloc-Ok :
    (pages : ℕ) {st : State}
    → 0 < pages
    → StateOk st
    → StateOk (page_alloc pages st).1
      × (((addr : ℕ) × ((page_alloc pages st).0 ≡ some addr)
            × (addr % 4096 ≡ 0)
            × (0 < addr)
            × (addr < 2 ^ 47))
          ⊎ (((page_alloc pages st).0 ≡ none) × Refused st.os.answers))
unfolding page_alloc
page_alloc-Ok pages {st} p ok =
    let (answers, got) = mmap-Ok st.os.answers (pages * 4096 % 2 ^ 64) st.os.calls ok.answers_ok in
    let e = alloc_pos pages st.os p in
    (
      record {
        alloc_ok = ok.alloc_ok;
        free_ok = ok.free_ok;
        pools_ok = ok.pools_ok;
        answers_ok = rw e answers;
        alloc_length = ok.alloc_length;
        free_length = ok.free_length;
        pools_length = ok.pools_length;
      },
      rw e got,
    )

-- A mapping that is made is logged, and one that fails is not.
pub mmap-calls :
    (answers : List (Option ℕ)) (size : ℕ) (calls : List Call) (addr : ℕ)
    → (Page.call_mmap answers size calls).0 ≡ some addr
    → (Page.call_mmap answers size calls).1.calls ≡ Call.mmap addr size ∷ calls
mmap-calls [] size calls addr e = ground arith
mmap-calls (none ∷ rest) size calls addr e = ground arith
mmap-calls (some a ∷ rest) size calls addr e = ground arith

pub page_alloc-calls :
    (pages : ℕ) (st : State) (addr : ℕ)
    → 0 < pages
    → (page_alloc pages st).0 ≡ some addr
    → (page_alloc pages st).1.os.calls ≡ Call.mmap addr (pages * page_size % 2 ^ 64) ∷ st.os.calls
unfolding page_alloc
page_alloc-calls pages st addr p e =
    let q = alloc_pos pages st.os p in
    rw q (mmap-calls st.os.answers _ st.os.calls addr (rw q at e))

pub mmap_failed :
    (answers : List (Option ℕ)) (size : ℕ) (calls : List Call)
    → AnswersOk answers
    → (Page.call_mmap answers size calls).0 ≡ none
    → (Page.call_mmap answers size calls).1.calls ≡ calls
mmap_failed [] size calls h e = refl
mmap_failed (none ∷ rest) size calls h e = refl
mmap_failed (some a ∷ rest) size calls h e = ground arith

pub page_alloc_failed :
    (pages : ℕ) (st : State)
    → 0 < pages
    → StateOk st
    → (page_alloc pages st).0 ≡ none
    → (page_alloc pages st).1.os.calls ≡ st.os.calls
unfolding page_alloc
page_alloc_failed pages st p ok e =
    let q = alloc_pos pages st.os p in
    rw q (mmap_failed st.os.answers _ st.os.calls ok.answers_ok (rw q at e))
