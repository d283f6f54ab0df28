-- ===== src/Memory/Pools.antt =====
-- The pools of include/memory/memory_pool.hpp: the lock-free stack, the pool of one block size, the
-- slab allocator, the cache of a thread and the manager.
pub mod Stack
pub mod FixedPool
pub mod Slabs
pub mod TlsCache
pub mod Manager
