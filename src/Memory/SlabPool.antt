-- ===== src/Memory/SlabPool.antt =====
-- `SlabAllocator` and `SlabPoolBridge` of bridges/pool_bridge, from one thread. A slab's free list
-- is the list of its free blocks, the top of the lock-free stack first; blocks are addresses.
pub mod Sizes
pub mod Bridge
mod Tests
use scicompute.Base.{
  ℕ, zero, suc, ◌+◌, ◌*◌, Bool, not, ◌&&◌, ◌||◌, Option, some, none, List, [], ◌∷◌, ◌++◌, ltb, leb,
  ◌==◌, if◌then◌else◌,
}
use scicompute.Base.Assoc.{find, put, erase}

abbrev pub sizes : List ℕ
sizes = 16 ∷ 32 ∷ 64 ∷ 128 ∷ 256 ∷ 512 ∷ 1024 ∷ 4096 ∷ []

abbrev pub max_slab_size : ℕ
max_slab_size = 4096

abbrev pub slab_count : ℕ
slab_count = 8

-- `kSizes[i]`
abbrev pub size_at : List ℕ → ℕ → ℕ
size_at [] i = 0
size_at (c ∷ cs) zero = c
size_at (c ∷ cs) (suc i) = size_at cs i

-- The loop of `IndexFor`, at the index `i`.
unfoldable pub index_from : ℕ → ℕ → List ℕ → ℕ
index_from size i [] = 7
index_from size i (c ∷ cs) = let rest = index_from size (suc i) cs in if leb size c then i else rest

unfoldable pub index_for : ℕ → ℕ
unfolding index_from
index_for size = if ltb (size_at sizes 7) size then 7 else index_from size 0 sizes

unfoldable pub slab_size : ℕ → ℕ
unfolding index_for
slab_size size = size_at sizes (index_for size)

pub can_allocate : ℕ → Bool
can_allocate size = ltb 0 size && leb size max_slab_size

pub record Slab : Type 0 where
  pub block_size : ℕ
  pub blocks_per_chunk : ℕ
  pub chunks : List ℕ
  pub free_list : List ℕ

abbrev pub SlabAllocator : Type 0
SlabAllocator = ℕ → Slab

pub fresh : SlabAllocator
fresh i = record {
  block_size = size_at sizes i;
  blocks_per_chunk = 256;
  chunks = [];
  free_list = [];
}

abbrev pub set_slab : SlabAllocator → ℕ → Slab → SlabAllocator
set_slab a i s j = if i == j then s else a j

-- The loop that pushes the blocks of a chunk: `n` blocks from the block `i` on.
pub carve : ℕ → ℕ → ℕ → ℕ → List ℕ → List ℕ
carve chunk block_size i zero free = free
carve chunk block_size i (suc n) free =
    carve chunk block_size (suc i) n ((chunk + i * block_size) ∷ free)

-- A new chunk at the address `chunk`.
pub expand : ℕ → Slab → Slab
unfolding carve
expand chunk s = record s {
  chunks = s.chunks ++ chunk ∷ [];
  free_list = carve chunk s.block_size 0 s.blocks_per_chunk s.free_list;
}

pub pop_from : List ℕ → Slab → Option ℕ × Slab
pop_from [] s = (none, s)
pop_from (p ∷ ps) s = (some p, record s { free_list = ps })

-- `free_list.Pop()`
pub pop_block : Slab → Option ℕ × Slab
unfolding pop_from
pop_block s = pop_from s.free_list s

-- What follows the first `Pop`: a slab without a free block gets a chunk.
pub or_expand : ℕ → Slab → Option ℕ × Slab → Option ℕ × Slab
unfolding expand pop_block
or_expand chunk s (none, t) = pop_block (expand chunk s)
or_expand chunk s (some p, t) = (some p, t)

pub take_block : ℕ → Slab → Option ℕ × Slab
unfolding or_expand pop_block
take_block chunk s = or_expand chunk s (pop_block s)

-- `chunk` is the address that `new` gives if a chunk is needed.
pub allocate : ℕ → ℕ → SlabAllocator → Option ℕ × SlabAllocator
unfolding can_allocate index_for take_block
allocate chunk size a =
    if can_allocate size
    then (
      (take_block chunk (a (index_for size))).0,
      set_slab a (index_for size) (take_block chunk (a (index_for size))).1,
    )
    else (none, a)

-- The block is not null.
pub deallocate : ℕ → ℕ → SlabAllocator → SlabAllocator
unfolding index_for
deallocate ptr size a =
    let s = a (index_for size) in
    set_slab a (index_for size) (record s { free_list = ptr ∷ s.free_list })

pub record SlabPoolBridge : Type 0 where
  pub allocator : SlabAllocator
  pub size_map : List (ℕ × ℕ)

-- What `allocate` does with the block that its allocator gives.
pub note : ℕ → Option ℕ × SlabAllocator → SlabPoolBridge → Option ℕ × SlabPoolBridge
note rounded (none, a) b = (none, record b { allocator = a })
note rounded (some p, a) b = (some p, record { allocator = a; size_map = put p rounded b.size_map })

pub bridge_allocate : ℕ → ℕ → SlabPoolBridge → Option ℕ × SlabPoolBridge
unfolding allocate slab_size note
bridge_allocate chunk bytes b =
    if bytes == 0 || ltb max_slab_size bytes
    then (none, b)
    else note (slab_size bytes) (allocate chunk (slab_size bytes) b.allocator) b

-- What `deallocate` does with what the map says of a block.
pub give_back : ℕ → Option ℕ → SlabPoolBridge → SlabPoolBridge
unfolding deallocate
give_back ptr none b = b
give_back ptr (some size) b = record {
  allocator = deallocate ptr size b.allocator;
  size_map = erase ptr b.size_map;
}

-- An unknown pointer is left alone. A null one is `none`.
pub bridge_deallocate : Option ℕ → SlabPoolBridge → SlabPoolBridge
unfolding give_back
bridge_deallocate none b = b
bridge_deallocate (some ptr) b = give_back ptr (find ptr b.size_map) b
