-- ===== src/Memory/Pools/Manager.antt =====
-- `MemoryPoolManager` of include/memory/memory_pool.hpp. A pointer to a pool is the block size that
-- it is registered under.
pub mod Registry
mod Tests
use scicompute.Base.{◌%◌, ◌^◌, ℕ, ◌+◌, Option, some, none, List}
use scicompute.Base.Assoc.{find, put, total}
use scicompute.Memory.Pools.FixedPool.{FixedSizeMemoryPool, total_allocated}
use scicompute.Memory.Pools.FixedPool
use scicompute.Memory.Pools.Slabs.{SlabAllocator}

pub record MemoryPoolManager : Type 0 where
  pub fixed_pools : List (ℕ × FixedSizeMemoryPool)
  pub slab_allocator : SlabAllocator

-- `blocks_per_chunk` where the constructor is not given it.
abbrev pub default_blocks : ℕ
default_blocks = 256

pub get_or_make : ℕ → Option FixedSizeMemoryPool → MemoryPoolManager → ℕ × MemoryPoolManager
get_or_make block_size (some p) m = (block_size, m)
get_or_make block_size none m = (
  block_size,
  record m {
    fixed_pools = put block_size (FixedPool.create block_size default_blocks) m.fixed_pools;
  },
)

pub get_fixed_pool : ℕ → MemoryPoolManager → ℕ × MemoryPoolManager
unfolding get_or_make
get_fixed_pool block_size m = get_or_make block_size (find block_size m.fixed_pools) m

pub get_slab_allocator : MemoryPoolManager → SlabAllocator
get_slab_allocator m = m.slab_allocator

-- The loop over the pools, whose sum is a `size_t`.
pub total_memory_usage : MemoryPoolManager → ℕ
total_memory_usage m = total total_allocated m.fixed_pools % 2 ^ 64
