-- ===== src/Memory.antt =====
-- Host memory: the tracking allocators and the owning buffer handle.
pub mod Allocator
pub mod BufferHandle
pub mod SlabPool
pub mod Pools
