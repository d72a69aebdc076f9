-- ===== src/Tests/Tags.antt =====
-- Managers of tags with tag 3 in use.
use aethalloc.Prelude.{ℕ, ◌≤◌, ◌<◌, ◌≡◌, arith, true, false, ◌⊎◌, ◌==◌, if◌then◌else◌}
use aethalloc.Hess
use aethalloc.Hess.{SoftwareTagManager, Outcome, TagError, ok, err, is_tag_used}
use aethalloc.Hess.Tags.{allocate_tag_lem}
use aethalloc.Hess.X86
use aethalloc.Hess.X86.{X86FeatureFlags, X86TagManager, Registers, detect, has_hardware_tagging}
use aethalloc.Hess.X86.Masks
use aethalloc.Hess.X86.Masks.{detect-has_amd_uai}
use aethalloc.Hess.X86.Tags.{allocate_tag-software, software}

abbrev third_used : SoftwareTagManager
third_used = record { next_tag = 3; used_tags = 8 }

allocate_tag_lem_example :
    let (r, m') = Hess.allocate_tag third_used in
    ((tag : ℕ) × (r ≡ ok tag)
      × (0 < tag)
      × (tag ≤ 15)
      × (is_tag_used tag third_used ≡ false)
      × (is_tag_used tag m' ≡ true)
      × ((3 ≡ tag) ⊎ (is_tag_used 3 m' ≡ is_tag_used 3 third_used)))
    ⊎ ((r ≡ err TagError.out_of_tags) × (is_tag_used 3 third_used ≡ true))
allocate_tag_lem_example =
    allocate_tag_lem 3 third_used (omega arith) (omega arith) (omega arith) (omega arith)

abbrev plain : X86TagManager
plain = record {
  features = record { has_intel_lam = false; has_amd_uai = false; has_la57 = false };
  next_tag = 3;
  used_tags = 8;
}

allocate_tag-software_example :
    let (r, m') = X86.allocate_tag plain in
    let (s, n) = Hess.allocate_tag (software plain) in
    (r ≡ s) × (software m' ≡ n) × (m'.features ≡ plain.features)
allocate_tag-software_example = allocate_tag-software plain

untag_pointer-tag_pointer_example :
    let p = X86.tag_pointer 65552 7 plain in
    ((7 ≤ 15)
      × (X86.get_tag p plain ≡ 7)
      × (X86.untag_pointer p plain ≡ X86.untag_pointer 65552 plain))
    ⊎ ((15 < 7) × (p ≡ 65552))
untag_pointer-tag_pointer_example = Masks.untag_pointer-tag_pointer 65552 7 plain

-- An AMD processor with Upper Address Ignore.
abbrev amd : ℕ → Registers
amd leaf =
    if leaf == 0
    then record { eax = 16; ebx = 0x68747541; ecx = 0x444D4163; edx = 0x69746E65 }
    else record { eax = 0x80000021; ebx = 0; ecx = 64; edx = 0 }

detect-has_amd_uai_example :
    ((detect amd).has_amd_uai ≡ false)
    × (has_hardware_tagging (detect amd) ≡ (detect amd).has_intel_lam)
detect-has_amd_uai_example = detect-has_amd_uai amd (omega arith)
