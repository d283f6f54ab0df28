-- ===== src/Memory/Pools/Manager/Tests.antt =====
-- `MemoryPoolManager` at concrete inputs.
use scicompute.Base.{◌≡◌, refl, [], ◌∷◌}
use scicompute.Base.Assoc.{total}
use scicompute.Memory.Pools.FixedPool.{FixedSizeMemoryPool}
use scicompute.Memory.Pools.FixedPool
use scicompute.Memory.Pools.Slabs
use scicompute.Memory.Pools.Manager.{MemoryPoolManager, total_memory_usage}

abbrev pool : FixedSizeMemoryPool
pool = record { free_list = []; chunks = 4096 ∷ []; block_size = 32; blocks_per_chunk = 2 }

abbrev manager : MemoryPoolManager
manager = record { fixed_pools = (32, pool) ∷ []; slab_allocator = Slabs.create }

usage : total_memory_usage manager ≡ 64
unfolding total_memory_usage FixedPool.total_allocated total
usage = refl
