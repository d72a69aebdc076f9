-- ===== src/Tests/Pages.antt =====
-- A kernel that grants everything and gives each buffer the next addresses that are free.
use aethalloc.Prelude.{
  max, ℕ, ◌+◌, ◌-◌, ◌%◌, Bool, true, Option, none, some, ◌&&◌, leb, ltb, if◌then◌else◌,
}
use aethalloc.Vmpc.Compactor.{Kernel}

-- The bytes below `top`, where all that is mapped lies.
record Space : Type 0 where
  byte : ℕ → Option ℕ
  top : ℕ

abbrev in_range : (a base len : ℕ) → Bool
in_range a base len = leb base a && ltb a (base + len)

abbrev at_byte : Space → ℕ → Option ℕ
at_byte sp a = if ltb a sp.top then sp.byte a else none

abbrev remade : (addr size : ℕ) → Space → Space
remade addr size sp = record {
  byte = λ a. if in_range a addr size then some 0 else at_byte sp a;
  top = max sp.top (addr + size);
}

abbrev granting : Kernel
granting = record {
  Space = Space;
  byte = at_byte;
  mmap = λ size sp. (
    some sp.top,
    record {
      byte = λ a. if in_range a sp.top size then some 0 else at_byte sp a;
      top = sp.top + size;
    },
  );
  mmap_fixed = λ addr size sp. (true, remade addr size sp);
  munmap = λ addr size sp.
      (true, record sp { byte = λ a. if in_range a addr size then none else sp.byte a });
  copy = λ src dst size sp. record sp {
    byte = λ a. if in_range a dst size then at_byte sp (src + (a - dst)) else sp.byte a;
  };
  errno = λ sp. 0;
}

abbrev started : Space
started = record { byte = λ a. some (a % 256); top = 8192 }
