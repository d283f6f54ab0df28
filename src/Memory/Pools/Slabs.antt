-- ===== src/Memory/Pools/Slabs.antt =====
-- `SlabAllocator` of include/memory/memory_pool.hpp, from one thread. A slab has the fields of
-- `FixedSizeMemoryPool`; the array of slabs is a function of the index.
pub mod Classes
pub mod Serving
mod Tests
use scicompute.Base.{
  ◌≡◌, ◌++◌, ℕ, zero, suc, ◌/◌, ◌<◌, ◌≤◌, Bool, true, false, Option, some, none, List, [], ◌∷◌, leb,
  ◌==◌, if◌then◌else◌, max,
}
use scicompute.Memory.Pools.FixedPool.{FixedSizeMemoryPool, push_blocks, pop, deallocate, Fresh}
use scicompute.Base.Sets.{count, take_out}

abbrev pub sizes : List ℕ
sizes = 16 ∷ 32 ∷ 64 ∷ 128 ∷ 256 ∷ 512 ∷ 1024 ∷ 4096 ∷ []

abbrev pub max_slab_size : ℕ
max_slab_size = 4096

-- `kSizes[i]`
abbrev pub size_at : List ℕ → ℕ → ℕ
size_at [] i = 0
size_at (c ∷ cs) zero = c
size_at (c ∷ cs) (suc i) = size_at cs i

-- The loop of `IndexFor`, at the index `i`.
pub index_from : ℕ → ℕ → List ℕ → Option ℕ
index_from size i [] = none
index_from size i (c ∷ cs) =
    let rest = index_from size (suc i) cs in if leb size c then some i else rest

pub index_for : ℕ → Option ℕ
unfolding index_from
index_for size = index_from size 0 sizes

abbrev pub has_value : Option ℕ → Bool
has_value none = false
has_value (some i) = true

pub can_allocate : ℕ → Bool
unfolding index_for
can_allocate size = has_value (index_for size)

abbrev pub size_or : ℕ → Option ℕ → ℕ
size_or size none = size
size_or size (some i) = size_at sizes i

pub get_slab_size : ℕ → ℕ
unfolding index_for
get_slab_size size = size_or size (index_for size)

abbrev pub Slab : Type 0
Slab = FixedSizeMemoryPool

abbrev pub SlabAllocator : Type 0
SlabAllocator = ℕ → Slab

pub create : SlabAllocator
create i = record {
  free_list = [];
  chunks = [];
  block_size = size_at sizes i;
  blocks_per_chunk = max 1 (max_slab_size / size_at sizes i);
}

abbrev pub set_slab : SlabAllocator → ℕ → Slab → SlabAllocator
set_slab a i s j = if i == j then s else a j

-- The new chunk of a slab, at the address `page`: the loop is that of `FixedSizeMemoryPool::Expand`.
pub add_chunk : ℕ → Slab → Slab
unfolding push_blocks
add_chunk page s = record s {
  chunks = s.chunks ++ page ∷ [];
  free_list = push_blocks page s.block_size 0 s.blocks_per_chunk s.free_list;
}

pub or_add_chunk : ℕ → Option ℕ × Slab → Option ℕ × Slab
unfolding add_chunk pop
or_add_chunk page (none, s) = pop (add_chunk page s)
or_add_chunk page (some b, s) = (some b, s)

-- The second test, under the lock: `Pop` again, and a new chunk if there is still no block.
pub or_locked : ℕ → Option ℕ × Slab → Option ℕ × Slab
unfolding or_add_chunk pop
or_locked page (none, s) = or_add_chunk page (pop s)
or_locked page (some b, s) = (some b, s)

pub take_block : ℕ → Slab → Option ℕ × Slab
unfolding or_locked pop
take_block page s = or_locked page (pop s)

pub allocate_at : ℕ → Option ℕ → SlabAllocator → Option ℕ × SlabAllocator
unfolding take_block
allocate_at page none a = (none, a)
allocate_at page (some i) a = ((take_block page (a i)).0, set_slab a i (take_block page (a i)).1)

-- `page` is the address that `operator new[]` gives if a chunk is needed.
pub allocate : ℕ → ℕ → SlabAllocator → Option ℕ × SlabAllocator
unfolding allocate_at index_for
allocate page size a = allocate_at page (index_for size) a

pub deallocate_at : ℕ → Option ℕ → SlabAllocator → SlabAllocator
unfolding deallocate
deallocate_at b none a = a
deallocate_at b (some i) a = set_slab a i (deallocate (some b) (a i))

-- A null pointer is `none`.
pub deallocate_sized : Option ℕ → ℕ → SlabAllocator → SlabAllocator
unfolding deallocate_at index_for
deallocate_sized none size a = a
deallocate_sized (some b) size a = deallocate_at b (index_for size) a

abbrev pub set_lent : (ℕ → List ℕ) → ℕ → List ℕ → ℕ → List ℕ
set_lent lent i bs j = if i == j then bs else lent j

-- The allocators that a client can come to, with the blocks that it holds, by the class of the size
-- asked for. `operator new[]` gives bytes that no slab has, and the client gives back a block that it
-- holds, with a size of the class that it asked for. Calls with a null pointer or with a size over
-- 4096 change nothing.
pub data Reach : SlabAllocator → (ℕ → List ℕ) → Type 0 where
  start : Reach create (λ i. [])
  allocates :
      {a : SlabAllocator} {lent : ℕ → List ℕ} (page size b i : ℕ)
      → Reach a lent
      → ((j : ℕ) → Fresh page (a j))
      → index_for size ≡ some i
      → (allocate page size a).0 ≡ some b
      → Reach (allocate page size a).1 (set_lent lent i (b ∷ lent i))
  deallocates :
      {a : SlabAllocator} {lent : ℕ → List ℕ} (b size i : ℕ)
      → Reach a lent
      → index_for size ≡ some i
      → 1 ≤ count b (lent i)
      → Reach (deallocate_sized (some b) size a) (set_lent lent i (take_out b (lent i)))
