-- ===== src/ThreadLocal/Reuse.antt =====
-- A cached block is the next one handed out.
use aethalloc.Prelude.{
  ℕ, ◌+◌, ◌-◌, ◌%◌, ◌^◌, ◌<◌, ◌≡◌, refl, ◌∙◌, ap, arith, Bool, true, false, some, leb, ◌==◌,
  get_or-set_self, length, length-set,
}
use aethalloc.Global.Memory.{Memory, store64, load64}
use aethalloc.Page.{Os}
use aethalloc.Global.Words.{load64-store64}
use aethalloc.ThreadLocal.{
  CacheSlot, ThreadLocalCache, empty_slot, get_slot, slot, with_slot, alloc, alloc_slot, dealloc,
  cache_size, tiny_classes, small_classes,
}

-- The arrays have their lengths, and no slot is out of range.
pub record CacheOk (c : ThreadLocalCache) : Type 0 where
  pub tiny_length : length c.tiny_slots ≡ tiny_classes
  pub small_length : length c.small_slots ≡ small_classes

abbrev pub Index : Bool → ℕ → Type 0
Index true idx = idx < tiny_classes
Index false idx = idx < small_classes

slot-with_slot :
    (c : ThreadLocalCache) (is_tiny : Bool) (idx : ℕ) (s : CacheSlot)
    → CacheOk c
    → Index is_tiny idx
    → slot (with_slot c is_tiny idx s) is_tiny idx ≡ s
unfolding slot with_slot
slot-with_slot c true idx s ok h =
    get_or-set_self c.tiny_slots idx s empty_slot (omega (arith, ok.tiny_length))
slot-with_slot c false idx s ok h =
    get_or-set_self c.small_slots idx s empty_slot (omega (arith, ok.small_length))

with_slot-Ok :
    (c : ThreadLocalCache) (is_tiny : Bool) (idx : ℕ) (s : CacheSlot)
    → CacheOk c
    → CacheOk (with_slot c is_tiny idx s)
unfolding with_slot
with_slot-Ok c true idx s ok = record {
  tiny_length = length-set c.tiny_slots idx s ∙ ok.tiny_length;
  small_length = ok.small_length;
}
with_slot-Ok c false idx s ok = record {
  tiny_length = ok.tiny_length;
  small_length = length-set c.small_slots idx s ∙ ok.small_length;
}

slot-memory :
    (c : ThreadLocalCache) (m : Memory) (is_tiny : Bool) (idx : ℕ)
    → slot (record c { memory = m }) is_tiny idx ≡ slot c is_tiny idx
unfolding slot
slot-memory c m true idx = refl
slot-memory c m false idx = refl

with_slot-os :
    (c : ThreadLocalCache) (is_tiny : Bool) (idx : ℕ) (s : CacheSlot)
    → (with_slot c is_tiny idx s).os ≡ c.os
unfolding with_slot
with_slot-os c true idx s = refl
with_slot-os c false idx s = refl

-- A block that is given back to a slot with room is what the next `alloc` of that size gets, and the
-- slot then has its old head and count again.
pub alloc-dealloc :
    (ptr size idx : ℕ) (is_tiny : Bool) (c : ThreadLocalCache)
    → CacheOk c
    → get_slot size ≡ some (is_tiny, idx)
    → Index is_tiny idx
    → 0 < ptr
    → (slot c is_tiny idx).head < 2 ^ 64
    → (slot c is_tiny idx).count < cache_size
    → let (out, c') = alloc size (dealloc ptr size c) in
      (out ≡ some ptr) × (slot c' is_tiny idx ≡ slot c is_tiny idx) × (c'.os.calls ≡ c.os.calls)
unfolding alloc dealloc alloc_slot
alloc-dealloc ptr size idx is_tiny c ok e h pos fits room =
    let old = slot c is_tiny idx in
    let grown : CacheSlot = record { head = ptr; count = old.count + 1 } in
    let c1 : ThreadLocalCache = record (with_slot c is_tiny idx grown) {
      memory = store64 c.memory ptr old.head;
    } in
    let ok0 = with_slot-Ok c is_tiny idx grown ok in
    let ok1 : CacheOk c1 = record {
      tiny_length = ok0.tiny_length;
      small_length = ok0.small_length;
    } in
    let s1 : slot c1 is_tiny idx ≡ grown =
      slot-memory (with_slot c is_tiny idx grown) _ is_tiny idx
      ∙ slot-with_slot c is_tiny idx grown ok h in
    let has_room : leb cache_size old.count ≡ false = ground arith in
    let not_null : (ptr == 0) ≡ false = ground arith in
    let shrunk : CacheSlot = record {
      head = load64 c1.memory ptr;
      count = (2 ^ 64 + (old.count + 1) - 1) % 2 ^ 64;
    } in
    let back : (2 ^ 64 + (old.count + 1) - 1) % 2 ^ 64 ≡ old.count = omega arith in
    let restored : shrunk ≡ old = rw (load64-store64 c.memory ptr old.head fits, back) refl in
    let gave : dealloc ptr size c ≡ c1 = rw (e, dealloc, has_room) refl in
    let took : alloc size c1 ≡ (some ptr, with_slot c1 is_tiny idx shrunk) =
      rw (e, alloc, s1, not_null) refl in
    rw (gave, took)
      (
        refl,
        slot-with_slot c1 is_tiny idx shrunk ok1 h ∙ restored,
        ap (λ (os : Os). os.calls)
            (with_slot-os c1 is_tiny idx shrunk ∙ with_slot-os c is_tiny idx grown),
      )
