-- ===== src/Memory/SlabPool/Tests.antt =====
-- `SlabAllocator` and `SlabPoolBridge` at concrete inputs.
use scicompute.Base.{ℕ, ◌≡◌, ◌≢◌, refl, some, [], ◌∷◌, arith}
use scicompute.Base.Assoc.{find}
use scicompute.Memory.SlabPool.{
  Slab, SlabPoolBridge, index_for, slab_size, fresh, take_block, bridge_allocate, bridge_deallocate,
  set_slab,
}
use scicompute.Memory.SlabPool.Bridge.{bridge_deallocate-bridge_allocate}

sizes_at : (slab_size 1 ≡ 16) × (slab_size 100 ≡ 128) × (slab_size 1025 ≡ 4096)
unfolding slab_size
sizes_at = (refl, refl, refl)

-- A slab of blocks of 16 bytes, four to a chunk.
abbrev bare : Slab
bare = record { block_size = 16; blocks_per_chunk = 4; chunks = []; free_list = [] }

abbrev pool : SlabPoolBridge
unfolding fresh
pool = record {
  allocator = set_slab fresh 0 (record bare { free_list = 32 ∷ 48 ∷ [] });
  size_map = [];
}

bridge_deallocate-bridge_allocate_example :
    ((bridge_allocate 0 9 pool).0 ≡ some 32)
    × ((bridge_deallocate (some 32) (bridge_allocate 0 9 pool).1).allocator (index_for 9)
        ≡ record bare { free_list = 32 ∷ 48 ∷ [] })
    × ((i : ℕ)
        → i ≢ index_for 9
        → (bridge_deallocate (some 32) (bridge_allocate 0 9 pool).1).allocator i ≡ pool.allocator i)
    × ((bridge_deallocate (some 32) (bridge_allocate 0 9 pool).1).size_map ≡ pool.size_map)
unfolding take_block pool index_for find
bridge_deallocate-bridge_allocate_example =
    bridge_deallocate-bridge_allocate 0 9 32 (record bare { free_list = 48 ∷ [] }) pool
      (omega arith) (omega arith) refl refl
