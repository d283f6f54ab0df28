-- ===== src/Memory/SlabPool/Sizes.antt =====
-- The size classes of `SlabAllocator`.
use scicompute.Base.{ℕ, ◌≤◌, ◌<◌, ◌≡◌, arith}
use scicompute.Memory.SlabPool.{sizes, size_at, index_from, index_for, slab_size}

enough : (size : ℕ) → size ≤ 4096 → size ≤ slab_size size
unfolding index_from index_for slab_size
enough size h = ground arith

small_index : (size : ℕ) → index_for size < 8
unfolding index_from index_for
small_index size = ground arith

below : (size i : ℕ) → i < index_for size → size_at sizes i < size
unfolding index_from index_for
below size i h = ground arith

pub index_for-slab_size : (size : ℕ) → index_for (slab_size size) ≡ index_for size
unfolding index_from index_for slab_size
index_for-slab_size size = ground arith

-- `GetSlabSize` picks one of the eight classes, the smallest that a size of at most 4096 fits in,
-- and the size that it answers has that same class.
slab_size-least :
    (size : ℕ)
    → size ≤ 4096
    → (size ≤ slab_size size)
      × (index_for size < 8)
      × ((i : ℕ) → i < index_for size → size_at sizes i < size)
      × (index_for (slab_size size) ≡ index_for size)
slab_size-least size h = (enough size h, small_index size, below size, index_for-slab_size size)
