-- ===== src/Tests/Hardware.antt =====
-- Tag managers over simple instructions, which do what their documentation says.
use aethalloc.Prelude.{
  ℕ, ◌+◌, ◌-◌, ◌*◌, ◌/◌, ◌%◌, ◌^◌, ◌≤◌, ◌<◌, ◌≡◌, ◌≢◌, refl, arith, some, ◌⊎◌, bit_at,
}
use aethalloc.Hess.{TagError, Outcome, ok, err}
use aethalloc.Hess
use aethalloc.Hess.Mte
use aethalloc.Hess.Mte.{MteTagManager}
use aethalloc.Hess.Mte.Laws.{software, tags-software_mte, untag_pointer-null, get_tag_blind}
use aethalloc.Hess.Cheri
use aethalloc.Hess.Cheri.{
  CheriTagManager, Target, riscv64, other, cheri_cap_bounds_set, get_capability_meta,
  create_bounded_capability,
}
use aethalloc.Hess.Cheri.Tags.{allocate_tag_least, free_tag-allocate_tag}
use aethalloc.Hess.Cheri.Capabilities.{create_bounded_capability-null}

abbrev manager : MteTagManager
manager = record { used_tags = 6; next_tag = 2 }

tags-software_mte_example :
    let (r, m') = Mte.allocate_tag manager in
    let (s, n) = Hess.allocate_tag (software manager) in
    let (u, m'') = Mte.free_tag 20 manager in
    let (v, n') = Hess.free_tag 20 (software manager) in
    ((r ≡ s) × (software m' ≡ n)) × ((u ≡ v) × (software m'' ≡ n'))
tags-software_mte_example = tags-software_mte 20 manager

-- One allocation tag for all of memory.
abbrev simple_mte : Mte.Instructions ℕ
simple_mte = record {
  addg = λ ptr tag_offset. ptr + tag_offset * 2 ^ 56;
  subp = λ ptr1 ptr2. (ptr1 % 2 ^ 56 + 2 ^ 64 - ptr2 % 2 ^ 56) % 2 ^ 64;
  ldg = λ ptr tags. 0 * 2 ^ 60 + tags * 2 ^ 56 + 2748;
  stg = λ ptr tags. ptr / 2 ^ 56 % 16;
}

null_by_mte : Mte.untag_pointer simple_mte (3 * 2 ^ 56 + 65536) ≡ 0
null_by_mte =
    untag_pointer-null simple_mte (λ p. p % 2 ^ 56) (λ p q. refl) (3 * 2 ^ 56 + 65536) (omega arith)

blind_to_tags : Mte.get_tag simple_mte 65536 3 ≡ Mte.get_tag simple_mte 65536 9
blind_to_tags = get_tag_blind simple_mte 2748 (λ p t. t) (λ p t. refl) 65536 3 9

abbrev cheri : CheriTagManager
cheri = record { used_tags = 6 }

third_tag : Cheri.allocate_tag cheri ≡ (ok 3, record { used_tags = 14 })
unfolding Cheri.allocate_tag
third_tag = refl

allocate_tag_least_example :
    let (r, m') = Cheri.allocate_tag cheri in
    ((tag : ℕ) × (r ≡ ok tag)
      × (1 ≤ tag)
      × (tag ≤ 15)
      × (bit_at cheri.used_tags tag ≡ 0)
      × ((u : ℕ) → 1 ≤ u → u < tag → bit_at cheri.used_tags u ≡ 1)
      × (bit_at m'.used_tags tag ≡ 1)
      × ((u : ℕ) → u ≢ tag → bit_at m'.used_tags u ≡ bit_at cheri.used_tags u))
    ⊎ ((r ≡ err TagError.out_of_tags)
        × ((u : ℕ) → 1 ≤ u → u ≤ 15 → bit_at cheri.used_tags u ≡ 1)
        × (m' ≡ cheri))
allocate_tag_least_example = allocate_tag_least cheri

free_tag-allocate_tag_example :
    let (r, m') = Cheri.allocate_tag cheri in
    (r ≡ err TagError.out_of_tags)
    ⊎ ((tag : ℕ) × (r ≡ ok tag)
        × ((Cheri.free_tag tag m').0 ≡ ok tt)
        × (bit_at (Cheri.free_tag tag m').1.used_tags 2 ≡ bit_at cheri.used_tags 2))
free_tag-allocate_tag_example = free_tag-allocate_tag 2 cheri (omega arith)

-- A capability is its address.
abbrev addresses : Cheri.Instructions ℕ
addresses = record {
  cgetlen = λ c. 4096;
  cgetbase = λ c. 65536;
  cgetoffset = λ c. 0;
  cgettag = λ c. 1;
  cgetperm = λ c. 255;
  csetbounds = λ c length. c;
  csetaddr = λ c address. address;
}

granted : create_bounded_capability (riscv64 addresses) 65536 100 3 ≡ some 0
unfolding create_bounded_capability
granted = refl

abbrev null_address : ℕ
null_address = 0

null_by_riscv64 : null_address ≡ 0
null_by_riscv64 =
    create_bounded_capability-null addresses (λ c. c) (λ cap a. refl) 65536 0 100 3 granted
