-- ===== src/Hess/Cheri.antt =====
-- aethalloc-hess/src/cheri.rs: its tag manager, and capabilities through the instructions of the
-- processor, which are parameters.
pub mod Tags
pub mod Capabilities
use aethalloc.Prelude.{
  ℕ, zero, suc, ◌+◌, ◌-◌, ◌%◌, ◌^◌, Bool, true, false, Option, none, some, ◌||◌, not, ltb, ◌==◌,
  if◌then◌else◌, bit_and, bit_or,
}
use aethalloc.Hess.{TagError, Outcome, ok, err, max_tag}

pub record CheriTagManager : Type 0 where
  pub used_tags : ℕ

unfoldable pub new : CheriTagManager
new = record { used_tags = 0 }

-- The loop of `allocate_tag` from a tag on, with `left` rounds left.
unfoldable pub search_tag : (left tag : ℕ) → CheriTagManager → Outcome ℕ × CheriTagManager
search_tag zero tag m = (err TagError.out_of_tags, m)
search_tag (suc left) tag m =
    let rest = search_tag left (tag + 1) m in
    if bit_and m.used_tags (2 ^ tag % 2 ^ 16) == 0
    then (ok tag, record { used_tags = bit_or m.used_tags (2 ^ tag % 2 ^ 16) })
    else rest

unfoldable pub allocate_tag : CheriTagManager → Outcome ℕ × CheriTagManager
unfolding search_tag
allocate_tag m = search_tag max_tag 1 m

unfoldable pub free_tag : ℕ → CheriTagManager → Outcome (Unit {0}) × CheriTagManager
free_tag tag m =
    if (tag == 0) || ltb max_tag tag
    then (err TagError.invalid_tag, m)
    else (ok tt, record { used_tags = bit_and m.used_tags (2 ^ 16 - 1 - 2 ^ tag % 2 ^ 16) })

-- The pointers of this manager have no tag.
unfoldable pub tag_pointer : (ptr tag : ℕ) → Outcome ℕ
tag_pointer ptr tag = ok ptr

unfoldable pub untag_pointer : ℕ → ℕ
untag_pointer ptr = ptr

unfoldable pub get_tag : ℕ → ℕ
get_tag ptr = 0

unfoldable pub store_tag : (ptr tag : ℕ) → Outcome (Unit {0})
store_tag ptr tag = ok tt

unfoldable pub load_tag : ℕ → ℕ
load_tag ptr = 0

-- The instructions that read and bound a capability, which stands for itself; the last is
-- CSETADDR, which riscv64 runs alone.
pub record Instructions (C : Type 0) : Type 0 where
  pub cgetlen : C → ℕ
  pub cgetbase : C → ℕ
  pub cgetoffset : C → ℕ
  pub cgettag : C → ℕ
  pub cgetperm : C → ℕ
  pub csetbounds : C → (length : ℕ) → C
  pub csetaddr : C → (address : ℕ) → C

-- The processor that the code is built for.
pub data Target (C : Type 0) : Type 0 where
  riscv64 aarch64 : Instructions C → Target C
  other : Target C

pub record CapabilityMeta : Type 0 where
  pub base : ℕ
  pub length : ℕ
  pub offset : ℕ
  pub permissions : ℕ
  pub tag : Bool

module _ {C : Type 0} where
  unfoldable pub cheri_cap_get_length : Target C → C → ℕ
  cheri_cap_get_length (riscv64 i) cap = i.cgetlen cap
  cheri_cap_get_length (aarch64 i) cap = i.cgetlen cap
  cheri_cap_get_length other cap = 0

  unfoldable pub cheri_cap_get_base : Target C → C → ℕ
  cheri_cap_get_base (riscv64 i) cap = i.cgetbase cap
  cheri_cap_get_base (aarch64 i) cap = i.cgetbase cap
  cheri_cap_get_base other cap = 0

  unfoldable pub cheri_cap_get_offset : Target C → C → ℕ
  cheri_cap_get_offset (riscv64 i) cap = i.cgetoffset cap
  cheri_cap_get_offset (aarch64 i) cap = i.cgetoffset cap
  cheri_cap_get_offset other cap = 0

  unfoldable pub cheri_cap_get_tag : Target C → C → Bool
  cheri_cap_get_tag (riscv64 i) cap = not (i.cgettag cap == 0)
  cheri_cap_get_tag (aarch64 i) cap = not (i.cgettag cap == 0)
  cheri_cap_get_tag other cap = false

  unfoldable pub cheri_cap_get_perms : Target C → C → ℕ
  cheri_cap_get_perms (riscv64 i) cap = i.cgetperm cap % 2 ^ 32
  cheri_cap_get_perms (aarch64 i) cap = i.cgetperm cap % 2 ^ 32
  cheri_cap_get_perms other cap = 0

  unfoldable pub cheri_cap_bounds_set : Target C → C → (base length : ℕ) → C
  cheri_cap_bounds_set (riscv64 i) cap base length = i.csetaddr (i.csetbounds cap length) base
  cheri_cap_bounds_set (aarch64 i) cap base length = i.csetbounds cap length
  cheri_cap_bounds_set other cap base length = cap

  unfoldable pub get_capability_meta : Target C → C → CapabilityMeta
  unfolding cheri_cap_get_length cheri_cap_get_base cheri_cap_get_offset cheri_cap_get_tag
      cheri_cap_get_perms
  get_capability_meta t cap = record {
    base = cheri_cap_get_base t cap;
    length = cheri_cap_get_length t cap;
    offset = cheri_cap_get_offset t cap;
    permissions = cheri_cap_get_perms t cap;
    tag = cheri_cap_get_tag t cap;
  }

  unfoldable pub create_bounded_capability : Target C → C → (length perms : ℕ) → Option C
  unfolding cheri_cap_bounds_set cheri_cap_get_perms cheri_cap_get_tag
  create_bounded_capability t base length perms =
      let cap = cheri_cap_bounds_set t base 0 length in
      let actual_perms = cheri_cap_get_perms t cap in
      if not (bit_and actual_perms perms == perms)
      then none
      else if not (cheri_cap_get_tag t cap)
      then none
      else some cap
