-- ===== src/Lib.antt =====
-- aethalloc, a memory allocator that is preloaded in place of malloc.
--
-- Parts. The C functions of aethalloc-abi/src/lib.rs call one global allocator,
-- aethalloc-abi/src/global.rs. It serves small requests from thread-local magazines of free blocks,
-- one pair for each size class, and large ones straight from pages; full magazines move to a pool
-- that all threads share. The size classes, the magazines and the pages are in aethalloc-core. The
-- crate aethalloc-amo has a ring through which a thread may hand commands to a support core.
--
-- Files.
--   Prelude           Boolean tests, lists and options, bits and 64-bit words.
--   SizeClass         aethalloc-core/src/size_class.rs, and size_to_class of global.rs.
--   Magazine          Magazine of aethalloc-core/src/magazine.rs: the array and the count.
--   Page              aethalloc-core/src/page.rs over mmap and munmap. Os holds the answers that mmap
--                     will give, an input, and the log of the calls.
--   Global            global.rs with magazine caching, its default. Global/State is the state as one
--                     thread sees it between two of its calls: the memory, the operating system, its
--                     own magazines and counters, and the shared pools. Global/Alloc has alloc, one
--                     function for each place a block may come from; Global/Dealloc has dealloc and
--                     get_alloc_size. Global/Memory is the memory as 32-bit little-endian units, with
--                     the two headers. Global/Invariant is what all operations keep.
--                     Global/Extents counts the blocks and mappings at an address; Global/Owners has
--                     the histories of clients that hold blocks.
--   Abi               malloc, free, calloc, realloc, aligned_alloc and posix_memalign.
--   Amo/Ring          ring_buffer.rs. try_push and try_pop are cut at their accesses to shared fields;
--                     Amo/Ring/Threads interleaves a producer and a consumer at these cuts.
--   Amo/Support       support_core.rs, one round of its loop and the loop with fuel.
--   Exporter          aethalloc-metrics/src/main.rs and lib.rs; Exporter/Text has the methods of texts.
--   Simple            global.rs without magazine caching: Simple has the state and the lists, linked
--                     through the memory of the blocks, Simple/Alloc and Simple/Dealloc the two
--                     operations; Simple/Chains is a list as it lies in memory, Simple/Moves what an
--                     operation moves, Simple/Owners the histories of clients.
--   Buddy             buddy.rs; the block headers are a function of the address of the block.
--   Slab              slab.rs; the free list is a list of addresses, and the system a field.
--   ThreadLocal       thread_local.rs; the memory and the system are fields of the cache.
--   Pool              global_pool.rs, and the two stacks of GlobalMagazinePool in magazine.rs: the loops as
--                     one thread runs them, and Pool/Threads with the steps of many threads.
--   Vmpc              page_table.rs and compactor.rs; the system calls are parameters.
--   Hess              SoftwareTagManager of aethalloc-hess/src/tag_manager.rs, and Hess/X86 for x86.rs
--                     with the instruction cpuid as a parameter, Hess/Mte for mte.rs and Hess/Cheri for
--                     cheri.rs with their instructions as parameters.
--   Tests             runs on concrete inputs.
--
-- Bounds and fuel. Numbers are the natural numbers; a machine word is written with its wrap-around.
-- The capacity of a ring is 2 to some power, as its constructor asserts. The fuel of `run` is the
-- number of rounds; no number is enough, which is a result below. A spinning push or pop of a ring, and
-- the loops of a lock-free stack or list, take a list with an item for each attempt that fails; the results
-- say which lists are enough. The list of a cache slot is
-- followed for as many blocks as the slot counts, and a free list of buddy blocks for as many as the
-- region has room for. Buddy's `alloc` calls itself at most once, after it has set up a region. All
-- other loops are structural.
--
-- Assumed of the system: an answer of mmap is null, or a page boundary below 2^47 and not zero. The
-- histories in Global/Owners and Simple/Owners also assume that no two mappings of the process overlap, and
-- Vmpc/Promises lists what POSIX says of the calls that move pages.
--
-- Not modelled: the instructions themselves that aethalloc-hess runs, the sockets, the thread and the
-- dynamic loading of aethalloc-metrics, and the counters and floating-point fields of aethalloc-vmpc.
-- A weak compare-and-swap of the metadata allocator that fails for no reason is left out: the source
-- tries again, and unmaps a page that it has mapped for the attempt.
-- The stacks and lists that threads share are modelled for many threads in Pool/Threads alone; the
-- heaps of global.rs are seen by one thread.
pub mod Prelude
pub mod SizeClass
pub mod Magazine
pub mod Page
pub mod Global
pub mod Amo
pub mod Abi
pub mod Hess
pub mod ThreadLocal
pub mod Simple
pub mod Exporter
pub mod Slab
pub mod Buddy
pub mod Pool
pub mod Vmpc
pub mod Tests
