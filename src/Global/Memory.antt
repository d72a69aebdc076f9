-- ===== src/Global/Memory.antt =====
-- Memory as 32-bit units, at the addresses that are multiples of 4, and the headers that are
-- written there. Both targets of the allocator are little-endian.
use aethalloc.Prelude.{ℕ, ◌+◌, ◌-◌, ◌*◌, ◌/◌, ◌%◌, ◌^◌, ◌==◌, if◌then◌else◌, bit_and}

abbrev pub Memory : Type 0
Memory = ℕ → ℕ

unfoldable pub store32 : Memory → ℕ → ℕ → Memory
store32 m addr v a = if a == addr then v % 2 ^ 32 else m a

-- The low half goes to the lower address.
unfoldable pub store64 : Memory → ℕ → ℕ → Memory
unfolding store32
store64 m addr v = store32 (store32 m addr v) (addr + 4) (v / 2 ^ 32)

unfoldable pub load64 : Memory → ℕ → ℕ
load64 m addr = m addr + m (addr + 4) * 2 ^ 32

abbrev pub magic : ℕ
magic = 0xA7E8A110

abbrev pub large_magic : ℕ
large_magic = 0xA7E8A11F

abbrev pub page_header_size : ℕ
page_header_size = 16

abbrev pub cache_header_size : ℕ
cache_header_size = 16

abbrev pub large_header_size : ℕ
large_header_size = 16

abbrev pub max_cache_size : ℕ
max_cache_size = 65536

abbrev pub num_size_classes : ℕ
num_size_classes = 14

-- `#[repr(C)] struct PageHeader`
pub record PageHeader : Type 0 where
  pub magic_word : ℕ
  pub num_pages : ℕ
  pub requested_size : ℕ

-- The store of a page count keeps its low 32 bits, as the cast does.
unfoldable pub write_page_header : Memory → ℕ → PageHeader → Memory
unfolding store32 store64
write_page_header m addr h =
    store64 (store32 (store32 m addr h.magic_word) (addr + 4) h.num_pages) (addr + 8)
      h.requested_size

unfoldable pub read_page_header : Memory → ℕ → PageHeader
unfolding load64
read_page_header m addr = record {
  magic_word = m addr;
  num_pages = m (addr + 4);
  requested_size = load64 m (addr + 8);
}

-- `#[repr(C)] struct LargeAllocHeader`: four bytes of padding follow the magic number.
pub record LargeAllocHeader : Type 0 where
  pub magic_word : ℕ
  pub base_ptr : ℕ

unfoldable pub write_large_header : Memory → ℕ → LargeAllocHeader → Memory
unfolding store32 store64
write_large_header m addr h = store64 (store32 m addr h.magic_word) (addr + 8) h.base_ptr

unfoldable pub read_large_header : Memory → ℕ → LargeAllocHeader
unfolding load64
read_large_header m addr = record { magic_word = m addr; base_ptr = load64 m (addr + 8) }

-- `(addr + align - 1) & !(align - 1)`
unfoldable pub align_up : ℕ → ℕ → ℕ
align_up addr align = bit_and (addr + align - 1) (2 ^ 64 - align)

-- The address of the page header, `ptr & !(PAGE_SIZE - 1)`.
unfoldable pub page_header_from_ptr : ℕ → ℕ
page_header_from_ptr ptr = bit_and ptr (2 ^ 64 - 4096)
