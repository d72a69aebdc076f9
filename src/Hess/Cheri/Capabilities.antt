-- ===== src/Hess/Cheri/Capabilities.antt =====
-- When a bounded capability is answered, and what its address is.
use aethalloc.Prelude.{
  ℕ, ◌≡◌, ◌≢◌, refl, subst, ◌∙◌, sym, ap, arith, Bool, true, false, none, some, ◌==◌, ◌⊎◌, inl, inr,
  Bool-cases, bit_and,
}
use mathlib.Core.Option.{some_inj, none-ne-some}
use aethalloc.Hess.Cheri.{
  Target, Instructions, riscv64, other, cheri_cap_get_perms, cheri_cap_get_tag,
  cheri_cap_bounds_set, create_bounded_capability, get_capability_meta,
}

untagged : ◌≢◌ {A = Bool} false true
untagged = ground arith

-- What `cheri_cap_bounds_set` gives for the base 0 is answered where its metadata have a tag and all
-- permissions asked for, and none where they lack one of these; no other processor than riscv64 and
-- aarch64 answers one.
create_bounded_capability_lem :
    {C : Type 0} (t : Target C) (base : C) (length perms : ℕ)
    → let cap = cheri_cap_bounds_set t base 0 length in
      let meta = get_capability_meta t cap in
      ((create_bounded_capability t base length perms ≡ some cap)
        × (meta.tag ≡ true)
        × (bit_and meta.permissions perms ≡ perms)
        × (◌≢◌ {A = Target C} t other))
      ⊎ ((create_bounded_capability t base length perms ≡ none)
          × ((meta.tag ≡ false) ⊎ (bit_and meta.permissions perms ≢ perms)))
unfolding create_bounded_capability get_capability_meta cheri_cap_get_tag
create_bounded_capability_lem t base length perms =
    let cap = cheri_cap_bounds_set t base 0 length in
    elim (Bool-cases (bit_and (cheri_cap_get_perms t cap) perms == perms)) [
      | inr missing ↦ inr (rw missing refl, inr (ground arith))
      | inl granted ↦ elim (Bool-cases (cheri_cap_get_tag t cap)) [
        | inl valid ↦ inl (
          rw (granted, valid) refl,
          valid,
          ground arith,
          λ e. untagged (subst (λ x. cheri_cap_get_tag x cap ≡ true) e valid),
        )
        | inr invalid ↦ inr (rw (granted, invalid) refl, inl invalid)
      ]
    ]

-- On riscv64, where CSETADDR is documented to set the address of a capability: the address of a
-- capability that `create_bounded_capability` answers is 0.
pub create_bounded_capability-null :
    {C : Type 0} (i : Instructions C) (address : C → ℕ)
    → ((cap : C) (a : ℕ) → address (i.csetaddr cap a) ≡ a)
    → (base c : C) (length perms : ℕ)
    → create_bounded_capability (riscv64 i) base length perms ≡ some c
    → address c ≡ 0
unfolding create_bounded_capability
create_bounded_capability-null i address documented base c length perms e =
    let cap = i.csetaddr (i.csetbounds base length) 0 in
    elim (create_bounded_capability_lem (riscv64 i) base length perms) [
      | inr (nothing, _) ↦ absurd (none-ne-some _ (sym nothing ∙ e))
      | inl (got, _, _, _) ↦ ap address (sym (some_inj.0 (sym got ∙ e))) ∙ documented _ 0
    ]
