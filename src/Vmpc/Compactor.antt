-- ===== src/Vmpc/Compactor.antt =====
-- aethalloc-vmpc/src/compactor.rs. The system calls and the copy of bytes are a parameter, a `Kernel`
-- whose state is the address space of the process.
use aethalloc.Prelude.{
  List, ℕ, ◌%◌, Bool, Option, none, some, ◌⊎◌, inl, inr, ◌||◌, ltb, ◌==◌, if◌then◌else◌, bit_or,
}

abbrev pub page_size : ℕ
page_size = 4096

pub data CompactError : Type 0 where
  invalid_address permission_denied out_of_memory cross_process_failed : CompactError
  unknown : (errno : ℕ) → CompactError

pub data CompactResult : Type 0 where
  success no_action : CompactResult
  partial_success : (pages_moved : ℕ) → CompactResult
  failed : CompactError → CompactResult

-- The numbers that Linux gives to the errors.
abbrev eperm : ℕ
eperm = 1

abbrev enomem : ℕ
enomem = 12

abbrev eacces : ℕ
eacces = 13

abbrev efault : ℕ
efault = 14

abbrev einval : ℕ
einval = 22

unfoldable pub from_errno : ℕ → CompactError
from_errno errno =
    if errno == einval
    then invalid_address
    else if errno == enomem
    then out_of_memory
    else if errno == eperm
    then permission_denied
    else if errno == eacces
    then permission_denied
    else if errno == efault
    then invalid_address
    else unknown errno

-- `Err` is `inl`, `Ok` is `inr`.
abbrev pub Outcome : Type 0 → Type 0
Outcome A = CompactError ⊎ A

abbrev mremap_fixed : ℕ
mremap_fixed = 2

-- What `mremap` answers to its five arguments, and the error number after the call.
unfoldable pub mremap_wrapper :
    (mremap : (old_addr old_size new_size flags new_addr : ℕ) → Option ℕ)
    → (errno : ℕ) → (old_addr old_size new_size flags : ℕ) → Option ℕ
    → Outcome ℕ
unfolding from_errno
mremap_wrapper mremap errno old_addr old_size new_size flags new_addr =
    let result : Option ℕ = elim new_addr [
      | some addr ↦ mremap old_addr old_size new_size (bit_or flags mremap_fixed) addr
      | none ↦ mremap old_addr old_size new_size flags 0
    ] in
    elim result [ none ↦ inl (from_errno errno) | some addr ↦ inr addr ]

-- `libc::iovec`
pub record Iovec : Type 0 where
  pub iov_base : ℕ
  pub iov_len : ℕ

-- A slice is its address and its length.
unfoldable pub make_iovec : (ptr len : ℕ) → Iovec
make_iovec ptr len = record { iov_base = ptr; iov_len = len }

unfoldable pub make_iovec_mut : (ptr len : ℕ) → Iovec
make_iovec_mut ptr len = record { iov_base = ptr; iov_len = len }

-- What the system call answers, a count of bytes or nothing for a negative number, and the error
-- number after it.
unfoldable pub process_vm_writev :
    (writev : ℕ → List Iovec → List Iovec → (flags : ℕ) → Option ℕ)
    → (errno pid : ℕ) → (local_iov remote_iov : List Iovec) → Outcome ℕ
unfolding from_errno
process_vm_writev writev errno pid local_iov remote_iov = elim (writev pid local_iov remote_iov 0) [
  | none ↦ inl (from_errno errno)
  | some n ↦ inr n
]

unfoldable pub process_vm_readv :
    (readv : ℕ → List Iovec → List Iovec → (flags : ℕ) → Option ℕ)
    → (errno pid : ℕ) → (local_iov remote_iov : List Iovec) → Outcome ℕ
unfolding from_errno
process_vm_readv readv errno pid local_iov remote_iov = elim (readv pid local_iov remote_iov 0) [
  | none ↦ inl (from_errno errno)
  | some n ↦ inr n
]

-- The system as `try_relocate_page` uses it. An address that is not mapped has no byte. A call of
-- `mmap` is for fresh pages, at a place of the kernel's choice or, with MAP_FIXED, at the given one.
pub record Kernel : Type 1 where
  pub Space : Type 0
  pub byte : Space → ℕ → Option ℕ
  pub mmap : (size : ℕ) → Space → Option ℕ × Space
  pub mmap_fixed : (addr size : ℕ) → Space → Bool × Space
  pub munmap : (addr size : ℕ) → Space → Bool × Space
  pub copy : (src dst size : ℕ) → Space → Space
  pub errno : Space → ℕ

module _ (k : Kernel) where
  -- Step 3 has failed: the mapping is made anew, and filled from the buffer if that succeeds.
  unfoldable pub restore : (src size temp : ℕ) → k.Space → k.Space
  restore src size temp sp =
      let (done, sp') = k.mmap_fixed src size sp in
      let filled = if done then k.copy temp src size sp' else sp' in (k.munmap temp size filled).1

  -- Steps 4 and 5.
  unfoldable pub remap : (src size temp : ℕ) → k.Space → Outcome CompactResult × k.Space
  remap src size temp sp =
      let (done, sp') = k.mmap_fixed src size sp in
      if done
      then (inr success, (k.munmap temp size (k.copy temp src size sp')).1)
      else (let sp'' = (k.munmap temp size sp').1 in (inl (unknown (k.errno sp'')), sp''))

  unfoldable pub try_relocate_page : (src size : ℕ) → k.Space → Outcome CompactResult × k.Space
  unfolding restore remap
  try_relocate_page src size sp =
      if (size == 0) || ltb 0 (size % page_size)
      then (inl invalid_address, sp)
      else (let (temp_buf, sp1) = k.mmap size sp in
          elim temp_buf [
            | none ↦ (inl out_of_memory, sp1)
            | some temp ↦
                let (unmapped, sp2) = k.munmap src size (k.copy src temp size sp1) in
                if unmapped
                then remap src size temp sp2
                else (let sp3 = restore src size temp sp2 in (inl (unknown (k.errno sp3)), sp3))
          ])

  unfoldable pub compact_pages : (src size : ℕ) → k.Space → Outcome CompactResult × k.Space
  unfolding try_relocate_page
  compact_pages src size sp = try_relocate_page src size sp
