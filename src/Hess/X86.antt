-- ===== src/Hess/X86.antt =====
-- aethalloc-hess/src/x86.rs: tags in the upper bits of a pointer. The instruction `cpuid` is a
-- parameter, from the leaf to the registers.
pub mod Masks
pub mod Tags
use aethalloc.Prelude.{
  ℕ, zero, suc, ◌+◌, ◌-◌, ◌*◌, ◌/◌, ◌%◌, ◌^◌, Bool, true, false, List, [], ◌∷◌, ◌++◌, ◌&&◌, ◌||◌,
  not, leb, ltb, ◌==◌, if◌then◌else◌, bit_and, bit_or,
}
use aethalloc.Hess.{TagError, Outcome, ok, err}

pub record Registers : Type 0 where
  pub eax : ℕ
  pub ebx : ℕ
  pub ecx : ℕ
  pub edx : ℕ

pub record X86FeatureFlags : Type 0 where
  pub has_intel_lam : Bool
  pub has_amd_uai : Bool
  pub has_la57 : Bool

abbrev bytes_of : ℕ → List ℕ
bytes_of reg =
    bit_and reg 0xFF
    ∷ bit_and (reg / 2 ^ 8) 0xFF
    ∷ bit_and (reg / 2 ^ 16) 0xFF
    ∷ bit_and (reg / 2 ^ 24) 0xFF
    ∷ []

abbrev same_bytes : List ℕ → List ℕ → Bool
same_bytes [] [] = true
same_bytes [] (b ∷ right) = false
same_bytes (a ∷ left) [] = false
same_bytes (a ∷ left) (b ∷ right) = (a == b) && same_bytes left right

-- The bytes of `GenuineIntel` and of `AuthenticAMD`.
abbrev pub genuine_intel : List ℕ
genuine_intel = 71 ∷ 101 ∷ 110 ∷ 117 ∷ 105 ∷ 110 ∷ 101 ∷ 73 ∷ 110 ∷ 116 ∷ 101 ∷ 108 ∷ []

abbrev pub authentic_amd : List ℕ
authentic_amd = 65 ∷ 117 ∷ 116 ∷ 104 ∷ 101 ∷ 110 ∷ 116 ∷ 105 ∷ 99 ∷ 65 ∷ 77 ∷ 68 ∷ []

unfoldable pub is_vendor : Registers → List ℕ → Bool
is_vendor vendor name =
    same_bytes (bytes_of vendor.ebx ++ bytes_of vendor.edx ++ bytes_of vendor.ecx) name

abbrev no_flags : X86FeatureFlags
no_flags = record { has_intel_lam = false; has_amd_uai = false; has_la57 = false }

abbrev pub bit_set : ℕ → ℕ → Bool
bit_set reg i = not (bit_and reg (2 ^ i) == 0)

unfoldable pub detect : (ℕ → Registers) → X86FeatureFlags
unfolding is_vendor
detect cpuid =
    let vendor = cpuid 0 in
    let is_intel = is_vendor vendor genuine_intel in
    let is_amd = is_vendor vendor authentic_amd in
    if is_intel && leb 7 vendor.eax
    then (let leaf7 = cpuid 7 in
        record {
          has_intel_lam = bit_set leaf7.edx 26;
          has_amd_uai = false;
          has_la57 = bit_set leaf7.ecx 16;
        })
    else if is_amd && leb 0x80000000 vendor.eax
    then (if leb 0x80000001 (cpuid 0x80000000).eax
        then record no_flags { has_amd_uai = bit_set (cpuid 0x80000001).ecx 6 }
        else no_flags)
    else no_flags

unfoldable pub has_hardware_tagging : X86FeatureFlags → Bool
has_hardware_tagging f = f.has_intel_lam || f.has_amd_uai

pub record X86TagManager : Type 0 where
  pub features : X86FeatureFlags
  pub next_tag : ℕ
  pub used_tags : ℕ

unfoldable pub new : (ℕ → Registers) → X86TagManager
unfolding detect
new cpuid = record { features = detect cpuid; next_tag = 1; used_tags = 0 }

-- The loop of `allocate_tag`, with `rounds` rounds left.
unfoldable pub search_tag : ℕ → X86TagManager → Outcome ℕ × X86TagManager
search_tag zero m = (err TagError.out_of_tags, m)
search_tag (suc rounds) m =
    let tag = m.next_tag in
    let m' = record m { next_tag = if leb 15 tag then 1 else tag + 1 } in
    let rest = search_tag rounds m' in
    if bit_and m.used_tags (2 ^ tag % 2 ^ 16) == 0
    then (ok tag, record m' { used_tags = bit_or m.used_tags (2 ^ tag % 2 ^ 16) })
    else rest

unfoldable pub allocate_tag : X86TagManager → Outcome ℕ × X86TagManager
unfolding search_tag
allocate_tag m = search_tag 15 m

unfoldable pub free_tag : ℕ → X86TagManager → Outcome (Unit {0}) × X86TagManager
free_tag tag m =
    if (tag == 0) || ltb 15 tag
    then (err TagError.invalid_tag, m)
    else (ok tt, record m { used_tags = bit_and m.used_tags (2 ^ 16 - 1 - 2 ^ tag % 2 ^ 16) })

unfoldable pub tag_pointer : (ptr tag : ℕ) → X86TagManager → ℕ
unfolding has_hardware_tagging
tag_pointer ptr tag m =
    if ltb 15 tag
    then ptr
    else if has_hardware_tagging m.features
    then bit_or (bit_and ptr 0x00FFFFFFFFFFFFFF) (tag * 2 ^ 56 % 2 ^ 64)
    else bit_or (bit_and ptr 0x0000FFFFFFFFFFFF) (tag * 2 ^ 48 % 2 ^ 64)

unfoldable pub untag_pointer : (ptr : ℕ) → X86TagManager → ℕ
unfolding has_hardware_tagging
untag_pointer ptr m =
    if has_hardware_tagging m.features
    then bit_and ptr 0x00FFFFFFFFFFFFFF
    else bit_and ptr 0x0000FFFFFFFFFFFF

unfoldable pub get_tag : (ptr : ℕ) → X86TagManager → ℕ
unfolding has_hardware_tagging
get_tag ptr m =
    if has_hardware_tagging m.features
    then bit_and (ptr / 2 ^ 56) 0xF
    else bit_and (ptr / 2 ^ 48) 0xF
