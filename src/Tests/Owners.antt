-- ===== src/Tests/Owners.antt =====
-- A client that holds one block of 100 bytes.
use aethalloc.Prelude.{
  ℕ, ◌+◌, ◌-◌, ◌*◌, ◌^◌, ◌≤◌, ◌<◌, ◌≡◌, refl, arith, ap, some, none, List, [], ◌∷◌, All, div_ceil,
  total, total_from, max,
}
use aethalloc.Magazine.{null}
use aethalloc.Page.{Call}
use aethalloc.Global.State.{State}
use aethalloc.Global.Extents.{covers, cached, mapped, covers-le}
use aethalloc.Global.Alloc.{alloc, large_pages}
use aethalloc.Global.Dealloc.{get_alloc_size}
use aethalloc.Global.Owners.{System, Live, taken, Reach, starts, then_step, takes, Sound, owned}
use aethalloc.Global.Owners.Histories.{Reach-Sound, Reach-apart, Reach-get_alloc_size, Reach-kept}
use aethalloc.Tests.Heaps.{zeroed, heap, small, small-IsLayout}

first_answer : (alloc small heap).0 ≡ 65552
unfolding alloc aethalloc.SizeClass.size_to_class aethalloc.SizeClass.class_table
    aethalloc.SizeClass.round_up_pow2 aethalloc.Prelude.is_power_of_two aethalloc.Prelude.ones
    aethalloc.Prelude.shl aethalloc.Prelude.leading_zeros aethalloc.Prelude.bit_len
    aethalloc.Magazine.pop aethalloc.Magazine.new aethalloc.Magazine.is_empty
    aethalloc.Global.State.page_alloc aethalloc.Page.alloc aethalloc.Global.State.maybe_flush
first_answer = refl

first_calls : (alloc small heap).1.os.calls ≡ Call.mmap 65536 4096 ∷ []
unfolding alloc aethalloc.SizeClass.size_to_class aethalloc.SizeClass.class_table
    aethalloc.SizeClass.round_up_pow2 aethalloc.Prelude.is_power_of_two aethalloc.Prelude.ones
    aethalloc.Prelude.shl aethalloc.Prelude.leading_zeros aethalloc.Prelude.bit_len
    aethalloc.Magazine.pop aethalloc.Magazine.new aethalloc.Magazine.is_empty
    aethalloc.Global.State.page_alloc aethalloc.Page.alloc aethalloc.Global.State.maybe_flush
first_calls = refl

abbrev after : State
after = (alloc small heap).1

second_calls : (alloc small after).1.os.calls ≡ Call.mmap 65536 4096 ∷ []
unfolding alloc aethalloc.SizeClass.size_to_class aethalloc.SizeClass.class_table
    aethalloc.SizeClass.round_up_pow2 aethalloc.Prelude.is_power_of_two aethalloc.Prelude.ones
    aethalloc.Prelude.shl aethalloc.Prelude.leading_zeros aethalloc.Prelude.bit_len
    aethalloc.Magazine.pop aethalloc.Magazine.new aethalloc.Magazine.is_empty
    aethalloc.Global.State.page_alloc aethalloc.Page.alloc aethalloc.Global.State.maybe_flush
    aethalloc.Magazine.bulk_init
second_calls = refl

pub one_mapping :
    (calls : List Call) → calls ≡ Call.mmap 65536 4096 ∷ [] → (a : ℕ) → mapped a calls ≤ 1
one_mapping calls e a = omega (arith, ap (mapped a) e, covers-le a 65536 4096)

pub few_pages : large_pages small < 2 ^ 32
unfolding large_pages div_ceil
few_pages = omega arith

abbrev holding : System
holding = record { heap = after; live = taken small (alloc small heap).0 after ∷ [] }

holding-Reach : Reach holding
holding-Reach =
    then_step
      (starts zeroed (some 65536 ∷ some 131072 ∷ [])
        ((omega arith, omega arith, omega arith), ((omega arith, omega arith, omega arith), tt)))
      (takes small small-IsLayout (omega arith) few_pages (omega (arith, first_answer))
        (one_mapping _ first_calls))

Reach-Sound_example : Sound holding
Reach-Sound_example = Reach-Sound holding-Reach

Reach-apart_example : cached 65540 after + owned 65540 holding.live ≤ 1
Reach-apart_example = Reach-apart holding-Reach 65540

Reach-get_alloc_size_example : All (λ (b : Live). get_alloc_size b.ptr after ≡ b.size) holding.live
Reach-get_alloc_size_example = Reach-get_alloc_size holding-Reach

first_owned : owned 65540 holding.live ≡ 1
unfolding alloc aethalloc.SizeClass.size_to_class aethalloc.SizeClass.class_table
    aethalloc.SizeClass.round_up_pow2 aethalloc.Prelude.is_power_of_two aethalloc.Prelude.ones
    aethalloc.Prelude.shl aethalloc.Prelude.leading_zeros aethalloc.Prelude.bit_len
    aethalloc.Magazine.pop aethalloc.Magazine.new aethalloc.Magazine.is_empty
    aethalloc.Global.State.page_alloc aethalloc.Page.alloc aethalloc.Global.State.maybe_flush taken
    covers
first_owned = refl

Reach-kept_example : (alloc small after).1.memory 65540 ≡ after.memory 65540
Reach-kept_example =
    Reach-kept small holding-Reach small-IsLayout (omega arith) few_pages
      (one_mapping _ second_calls) 65540 (omega (arith, first_owned))
