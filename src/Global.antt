-- ===== src/Global.antt =====
-- aethalloc-abi/src/global.rs in its default mode, magazine caching: the allocator that the C
-- functions of aethalloc-abi/src/lib.rs call.
pub mod Memory
pub mod Metrics
pub mod State
pub mod Alloc
pub mod Dealloc
pub mod Words
pub mod Extents
pub mod Invariant
pub mod Mapping
pub mod Large
pub mod Sizes
pub mod Served
pub mod Requests
pub mod Releases
pub mod Reuse
pub mod Untouched
pub mod Owners
