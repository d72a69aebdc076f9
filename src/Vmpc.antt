-- ===== src/Vmpc.antt =====
-- The crate aethalloc-vmpc: what the kernel says of a page, and the relocation of pages.
pub mod PageTable
pub mod Compactor
pub mod Promises
pub mod Relocation
