-- ===== src/Memory/Pools/FixedPool.antt =====
-- `FixedSizeMemoryPool` of include/memory/memory_pool.hpp. Its free list is the list of the free
-- blocks, the top of the stack first; blocks and chunks are addresses.
pub mod Chunks
pub mod Holding
pub mod Blocks
mod Tests
use scicompute.Base.{
  ◌%◌, ◌^◌, ℕ, zero, suc, ◌+◌, ◌*◌, Option, some, none, List, [], ◌∷◌, ◌++◌, max, length, ◌≡◌, ◌⊎◌,
  ◌≤◌,
}
use scicompute.Base.Sets.{count, take_out}

pub record FixedSizeMemoryPool : Type 0 where
  pub free_list : List ℕ
  pub chunks : List ℕ
  pub block_size : ℕ
  pub blocks_per_chunk : ℕ

-- `sizeof(FreeNode)`, a pointer of eight bytes.
abbrev pub free_node_size : ℕ
free_node_size = 8

unfoldable pub create : ℕ → ℕ → FixedSizeMemoryPool
create block_size blocks_per_chunk = record {
  free_list = [];
  chunks = [];
  block_size = max block_size free_node_size;
  blocks_per_chunk = blocks_per_chunk;
}

-- The loop of `Expand`: it pushes the `n` blocks from the block `i` on.
unfoldable pub push_blocks : ℕ → ℕ → ℕ → ℕ → List ℕ → List ℕ
push_blocks page block_size i zero free = free
push_blocks page block_size i (suc n) free =
    push_blocks page block_size (suc i) n ((page + i * block_size) ∷ free)

-- `page` is the address that `operator new[]` gives.
unfoldable pub expand : ℕ → FixedSizeMemoryPool → FixedSizeMemoryPool
unfolding push_blocks
expand page p = record p {
  chunks = p.chunks ++ page ∷ [];
  free_list = push_blocks page p.block_size 0 p.blocks_per_chunk p.free_list;
}

-- `free_list_.Pop()`, by what the free list is.
unfoldable pub pop_from : List ℕ → FixedSizeMemoryPool → Option ℕ × FixedSizeMemoryPool
pop_from [] p = (none, p)
pop_from (b ∷ bs) p = (some b, record p { free_list = bs })

unfoldable pub pop : FixedSizeMemoryPool → Option ℕ × FixedSizeMemoryPool
unfolding pop_from
pop p = pop_from p.free_list p

-- The test of `Allocate` on what the first `Pop` gave.
unfoldable pub or_expand : ℕ → Option ℕ × FixedSizeMemoryPool → Option ℕ × FixedSizeMemoryPool
unfolding expand pop
or_expand page (none, p) = pop (expand page p)
or_expand page (some b, p) = (some b, p)

-- `page` is the address that `operator new[]` gives if the pool must grow.
unfoldable pub allocate : ℕ → FixedSizeMemoryPool → Option ℕ × FixedSizeMemoryPool
unfolding or_expand
allocate page p = or_expand page (pop p)

-- A null pointer is `none`.
unfoldable pub deallocate : Option ℕ → FixedSizeMemoryPool → FixedSizeMemoryPool
deallocate none p = p
deallocate (some b) p = record p { free_list = b ∷ p.free_list }

-- The sum and the product are taken in `size_t`.
unfoldable pub total_allocated : FixedSizeMemoryPool → ℕ
total_allocated p = (length p.chunks * p.block_size * p.blocks_per_chunk) % 2 ^ 64

-- The bytes that `Expand` asks `operator new[]` for: the product in `size_t`, which may wrap.
unfoldable pub chunk_bytes : FixedSizeMemoryPool → ℕ
chunk_bytes p = (p.block_size * p.blocks_per_chunk) % 2 ^ 64

-- `operator new[]` gives bytes that no chunk of the pool has: the address of the new chunk is at
-- least the length of a chunk away from that of each other.
unfoldable pub Fresh : ℕ → FixedSizeMemoryPool → Type 0
unfolding count chunk_bytes
Fresh page p =
    (c : ℕ) → 1 ≤ count c p.chunks → (c + chunk_bytes p ≤ page) ⊎ (page + chunk_bytes p ≤ c)

-- A pool and the blocks that its client holds.
pub record Use : Type 0 where
  pub pool : FixedSizeMemoryPool
  pub lent : List ℕ

-- The uses that a client can come to, which gives back only what it holds. With room for a block in
-- a chunk, `allocate` gives a block.
pub data Reach (block_size blocks_per_chunk : ℕ) : Use → Type 0 where
  start :
      Reach block_size blocks_per_chunk
        (record { pool = create block_size blocks_per_chunk; lent = [] })
  allocates :
      {p q : FixedSizeMemoryPool} {lent : List ℕ} (page b : ℕ)
      → Reach block_size blocks_per_chunk (record { pool = p; lent = lent })
      → Fresh page p
      → allocate page p ≡ (some b, q)
      → Reach block_size blocks_per_chunk (record { pool = q; lent = b ∷ lent })
  deallocates :
      {p : FixedSizeMemoryPool} {lent : List ℕ} (b : ℕ)
      → Reach block_size blocks_per_chunk (record { pool = p; lent = lent })
      → 1 ≤ count b lent
      → Reach block_size blocks_per_chunk
          (record { pool = deallocate (some b) p; lent = take_out b lent })
