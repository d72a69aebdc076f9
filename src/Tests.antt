-- ===== src/Tests.antt =====
-- Runs of the model on concrete inputs, one module for each part.
mod Sizes
mod Rings
mod Heaps
mod Owners
mod Pages
mod Pools
mod Tags
mod Slabs
mod Caches
mod Hardware
mod Exports
