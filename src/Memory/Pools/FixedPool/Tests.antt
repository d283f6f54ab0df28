-- ===== src/Memory/Pools/FixedPool/Tests.antt =====
-- `FixedSizeMemoryPool` at concrete inputs.
use scicompute.Base.{◌^◌, ℕ, ◌+◌, ◌*◌, ◌≤◌, ◌≡◌, ◌≢◌, ◌⊎◌, refl, some, [], ◌∷◌, arith}
use scicompute.Base.Sets.{count}
use scicompute.Memory.Pools.FixedPool.{
  chunk_bytes, expand, FixedSizeMemoryPool, create, allocate, Fresh, Use, Reach, start, allocates,
  push_blocks,
}
use scicompute.Memory.Pools.FixedPool.Blocks.{lent_apart, allocate_gives}

-- A pool of blocks of 16 bytes, three to a chunk, after two blocks were taken.
abbrev pool : FixedSizeMemoryPool
pool = record { free_list = 1000 ∷ []; chunks = 1000 ∷ []; block_size = 16; blocks_per_chunk = 3 }

abbrev used : Use
used = record { pool = pool; lent = 1016 ∷ 1032 ∷ [] }

used-Reach : Reach 16 3 used
unfolding create allocate push_blocks Fresh count chunk_bytes
used-Reach =
    allocates 0 1016 (allocates 1000 1032 start (λ c h. elim h [ ]) refl) (λ c h. ground arith) refl

lent_apart_example :
    (count 1016 used.lent ≡ 1)
    × (count 1016 pool.free_list ≡ 0)
    × ((c : ℕ) × (1 ≤ count c pool.chunks) × (c ≤ 1016) × (1016 + 16 ≤ c + chunk_bytes pool))
    × ((y : ℕ) → 1 ≤ count y used.lent → 1016 ≢ y → (1016 + 16 ≤ y) ⊎ (y + 16 ≤ 1016))
unfolding count
lent_apart_example = lent_apart 16 3 used 1016 (ground arith) used-Reach (omega arith)

allocate_gives_example : (b : ℕ) × (q : FixedSizeMemoryPool) × (allocate 4096 pool ≡ (some b, q))
allocate_gives_example = allocate_gives 4096 pool (omega arith)

-- With blocks of 2^62 bytes, four to a chunk, the product wraps: no byte is allocated, and the pool
-- hands out four blocks outside its chunk.
wrapped :
    (chunk_bytes (create (2 ^ 62) 4) ≡ 0)
    × ((expand 0 (create (2 ^ 62) 4)).free_list ≡ 3 * 2 ^ 62 ∷ 2 * 2 ^ 62 ∷ 2 ^ 62 ∷ 0 ∷ [])
unfolding chunk_bytes create expand push_blocks
wrapped = (refl, refl)
