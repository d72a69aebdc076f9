-- ===== src/Amo.antt =====
-- aethalloc-amo: the ring buffer that carries commands from an application core to the support
-- core, and the loop there.
pub mod Command
pub mod Ring
pub mod Support
