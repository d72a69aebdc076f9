-- ===== src/Abi/Requests.antt =====
-- What the C functions answer to a request.
use aethalloc.Prelude.{
  ℕ, ◌+◌, ◌-◌, ◌%◌, ◌^◌, ◌<◌, ◌≡◌, refl, arith, max, true, false, none, some, ◌⊎◌, inl, inr, ◌&&◌,
  ◌||◌, not, leb, ◌==◌, Bool-cases, ==_iff, word_methods, is_power_of_two, pow_of_is_power_of_two,
  is_power_of_two-pow, lt_of_pow_lt,
}
use aethalloc.Magazine.{null}
use aethalloc.Global.State.{State}
use aethalloc.Global.Invariant.{StateOk}
use aethalloc.Global.Mapping.{Refused}
use aethalloc.Global.Alloc.{Layout, IsLayout, alloc}
use aethalloc.Global.Dealloc.{get_alloc_size}
use aethalloc.Global.Served.{alloc-Answer}
use aethalloc.Global.Requests.{get_alloc_size-alloc, alloc_aligned}
use aethalloc.Abi.{
  Process, ensure_init, from_size_align, alloc_layout, malloc, aligned_alloc, posix_memalign,
}

-- A layout of at least one byte keeps its size and alignment, and has the guarantees of a layout.
from_size_align-IsLayout :
    (size align : ℕ)
    → 0 < size
    → ((from_size_align size align ≡ some (record { size = size; align = align }))
        × IsLayout (record { size = size; align = align }))
      ⊎ ((from_size_align size align ≡ none)
          × ((is_power_of_two align ≡ false) ⊎ (2 ^ 63 < size + align)))
unfolding from_size_align
from_size_align-IsLayout size align p =
    elim (Bool-cases (is_power_of_two align && leb size (2 ^ 63 - align))) [
      | inl good ↦
          let below : align < 2 ^ 63 = ground arith in
          let power : is_power_of_two align ≡ true = ground arith in
          let (j, e, _) = pow_of_is_power_of_two align (omega (arith, below)) power in
          inl (
            rw good refl,
            record {
              log_align = j;
              power = e;
              log_small = omega (arith, lt_of_pow_lt j 63 (omega (arith, below, e)));
              fits = ground arith;
            },
          )
      | inr bad ↦ inr (rw bad refl, ground arith)
    ]

-- A pointer to `size` bytes at a multiple of 16 and of `align`.
abbrev pub Fresh : (size align ptr : ℕ) → State → Type 0
Fresh size align ptr st = (get_alloc_size ptr st ≡ size) × (ptr % 16 ≡ 0) × (ptr % align ≡ 0)

alloc-Fresh :
    {l : Layout} {st : State}
    → IsLayout l
    → StateOk st
    → 0 < l.size
    → let (ptr, st') = alloc l st in
      StateOk st' × (((ptr ≡ null) × Refused st.os.answers) ⊎ Fresh l.size l.align ptr st')
alloc-Fresh {l} {st} lay ok p = (
  (alloc-Answer lay ok p).0,
  elim (get_alloc_size-alloc lay ok p) [
    | inl refused ↦ inl refused
    | inr size ↦ elim (alloc_aligned lay ok p) [
      | inl refused ↦ inl refused
      | inr (at, aligned) ↦ inr (size, at, aligned)
    ]
  ],
)

-- What a call answers that asks the allocator for `size` bytes at a multiple of `align`.
abbrev pub Granted : (size align ptr : ℕ) (before after : State) → Type 0
Granted size align ptr before after =
    ((ptr ≡ null) × ((2 ^ 63 < size + align) ⊎ Refused before.os.answers))
    ⊎ Fresh size align ptr after

-- A granted request is null where it failed, and only there.
pub Granted-null :
    (size align ptr : ℕ) (before after : State)
    → Granted size align ptr before after
    → 0 < size
    → (ptr == 0) ≡ true
    → (2 ^ 63 < size + align) ⊎ Refused before.os.answers
unfolding get_alloc_size
Granted-null size align ptr before after (inl (e, why)) pos q = why
Granted-null size align ptr before after (inr (same, _, _)) pos q =
    absurd (omega (arith, rw q at same))

pub Granted-some :
    (size align ptr : ℕ) (before after : State)
    → Granted size align ptr before after
    → (ptr == 0) ≡ false
    → Fresh size align ptr after
Granted-some size align ptr before after (inl (e, why)) q = absurd (ground arith)
Granted-some size align ptr before after (inr fresh) q = fresh

alloc_layout-Granted :
    (size align : ℕ) (p : Process)
    → 0 < size
    → is_power_of_two align ≡ true
    → StateOk p.heap
    → let (ptr, p') = alloc_layout (from_size_align size align) p in
      StateOk p'.heap × Granted size align ptr p.heap p'.heap
unfolding alloc_layout
alloc_layout-Granted size align p pos power ok = elim (from_size_align-IsLayout size align pos) [
  | inl (e, lay) ↦
      let (ok', got) = alloc-Fresh lay ok pos in
      rw (e, alloc_layout) (ok', elim got [ inl (q, r) ↦ inl (q, inr r) | inr fresh ↦ inr fresh ])
  | inr (e, inl bad) ↦ absurd (ground arith)
  | inr (e, inr big) ↦ rw (e, alloc_layout) (ok, inl (refl, inl big))
]

ensure_init-heap : (p : Process) → (ensure_init p).heap ≡ p.heap
unfolding ensure_init
ensure_init-heap p = elim (Bool-cases p.initialized) [ inl e ↦ rw e refl | inr e ↦ rw e refl ]

-- `malloc` of at least one byte keeps the invariant. It answers null, and then the size is past
-- 2^63 - 8 or `mmap` refuses the next page request, or a pointer at a multiple of 16 from which the
-- size is read back.
pub malloc_lem :
    (size : ℕ) (p : Process)
    → 0 < size
    → StateOk p.heap
    → let (ptr, p') = malloc size p in StateOk p'.heap × Granted size 8 ptr p.heap p'.heap
unfolding malloc
malloc_lem size p pos ok =
    let some_bytes : (size == 0) ≡ false = ground arith in
    let e = ensure_init-heap p in
    let got =
      alloc_layout-Granted size 8 (ensure_init p) pos (is_power_of_two-pow 3 (omega arith))
        (rw e ok) in
    rw (some_bytes, malloc) (rw e at got)

zero_not_power : is_power_of_two 0 ≡ false
unfolding word_methods
zero_not_power = refl

not_power : (a : ℕ) → ((a == 0) || not (is_power_of_two a)) ≡ true → is_power_of_two a ≡ false
not_power a h = elim (Bool-cases (a == 0)) [
  | inl z ↦ rw ((==_iff a 0).0 z) zero_not_power
  | inr pos ↦ ground arith
]

-- `aligned_alloc`: null is answered for an alignment that is no power
-- of two, for a size that does not fit, or where `mmap` refuses; else the pointer is a multiple of
-- the alignment and the size, at least 1, is read back from it. The invariant is kept.
pub aligned_alloc_lem :
    (alignment size : ℕ) (p : Process)
    → StateOk p.heap
    → let (ptr, p') = aligned_alloc alignment size p in
      StateOk p'.heap
      × (((ptr ≡ null) × (is_power_of_two alignment ≡ false))
          ⊎ Granted (max size 1) alignment ptr p.heap p'.heap)
unfolding aligned_alloc
aligned_alloc_lem alignment size p ok =
    elim (Bool-cases ((alignment == 0) || not (is_power_of_two alignment))) [
      | inl bad ↦ rw bad (ok, inl (refl, not_power alignment bad))
      | inr good ↦
          let (ok', got) =
            alloc_layout-Granted (max size 1) alignment p (omega arith) (ground arith) ok in
          rw good (ok', inr got)
    ]

-- An alignment that `posix_memalign` takes.
abbrev pub IsAlignment : ℕ → Type 0
IsAlignment alignment = (is_power_of_two alignment ≡ true) × (alignment % 8 ≡ 0)

-- `posix_memalign` answers 22, touches nothing and writes no pointer where the alignment is no power of
-- two or no multiple of 8. For any other alignment it answers 12 and writes no pointer, and then the
-- size is not 0 and the request does not fit or `mmap` refuses; or it answers 0 and writes a pointer,
-- which is null only for a size of 0 and else is fresh at a multiple of the alignment. The invariant
-- is kept.
pub posix_memalign_lem :
    (alignment size : ℕ) (p : Process)
    → StateOk p.heap
    → let ((code, out), p') = posix_memalign alignment size p in
      StateOk p'.heap
      × (((code ≡ 22)
            × (out ≡ none)
            × (p' ≡ p)
            × ((is_power_of_two alignment ≡ false) ⊎ (0 < alignment % 8)))
          ⊎ (IsAlignment alignment
              × (((code ≡ 12)
                    × (out ≡ none)
                    × (0 < size)
                    × ((2 ^ 63 < max size 1 + alignment) ⊎ Refused p.heap.os.answers))
                  ⊎ ((ptr : ℕ) × (code ≡ 0)
                      × (out ≡ some ptr)
                      × (((ptr ≡ null) × (size ≡ 0)) ⊎ Fresh (max size 1) alignment ptr p'.heap)))))
unfolding posix_memalign
posix_memalign_lem alignment size p ok =
    elim (Bool-cases
      ((alignment == 0) || (not (is_power_of_two alignment) || not (alignment % 8 == 0)))) [
        | inl bad ↦ rw bad (ok, inl (refl, refl, refl, ground (arith, zero_not_power)))
        | inr good ↦
            let (ok', got) = aligned_alloc_lem alignment size p ok in
            let taken : IsAlignment alignment = (ground arith, ground arith) in
            let (ptr, p') = aligned_alloc alignment size p in
            elim (Bool-cases ((ptr == 0) && not (size == 0))) [
              | inl failed ↦
                  rw (good, failed)
                    (
                      ok',
                      inr (
                        taken,
                        inl (
                          refl,
                          refl,
                          ground arith,
                          elim got [
                            | inl (_, bad) ↦ absurd (ground arith)
                            | inr granted ↦
                                Granted-null (max size 1) alignment ptr p.heap p'.heap granted
                                  (omega arith) (ground arith)
                          ],
                        ),
                      ),
                    )
              | inr done ↦
                  rw (good, done)
                    (
                      ok',
                      inr (
                        taken,
                        inr (
                          ptr,
                          refl,
                          refl,
                          elim (Bool-cases (ptr == 0)) [
                            | inl null_ptr ↦ inl (ground arith, ground arith)
                            | inr q ↦ inr (elim got [
                              | inl (e, _) ↦ absurd (ground arith)
                              | inr granted ↦
                                  Granted-some (max size 1) alignment ptr p.heap p'.heap granted q
                            ])
                          ],
                        ),
                      ),
                    )
            ]
      ]
