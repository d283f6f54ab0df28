-- ===== src/Memory/Pools/FixedPool/Blocks.antt =====
-- The blocks that a `FixedSizeMemoryPool` hands out.
use scicompute.Base.{
  max, ◌%◌, ◌^◌, ℕ, ◌+◌, ◌*◌, ◌≤◌, ◌<◌, ◌≡◌, ◌≢◌, ◌⊎◌, inl, inr, refl, sym, ap, ◌∙◌, some, List, [],
  ◌∷◌, length, arith, ℕ_discrete, dec_lt,
}
use scicompute.Base.Sets.{count}
use scicompute.Memory.Pools.FixedPool.{
  chunk_bytes, FixedSizeMemoryPool, expand, pop_from, pop, or_expand, allocate, total_allocated,
  Use, Reach,
}
use scicompute.Memory.Pools.FixedPool.Chunks.{step_apart, length-push_blocks}
use scicompute.Memory.Pools.FixedPool.Holding.{Inv, held, Reach-Inv, within_chunk}

module _ (p : FixedSizeMemoryPool) (lent : List ℕ) (v : Inv p lent) where
  placed_apart :
      (c d j k : ℕ)
      → 1 ≤ count c p.chunks
      → 1 ≤ count d p.chunks
      → j < p.blocks_per_chunk
      → k < p.blocks_per_chunk
      → c + j * p.block_size ≢ d + k * p.block_size
      → (c + j * p.block_size + p.block_size ≤ d + k * p.block_size)
        ⊎ (d + k * p.block_size + p.block_size ≤ c + j * p.block_size)
  placed_apart c d j k h h' l l' ne =
      let room = within_chunk p.block_size j p.blocks_per_chunk l in
      let room' = within_chunk p.block_size k p.blocks_per_chunk l' in
      elim (ℕ_discrete c d) [
        | yes e ↦ elim (dec_lt j k) [
          | yes s ↦ let gap = step_apart p.block_size j k v.wide s in inl (omega arith)
          | no ns ↦ elim (dec_lt k j) [
            | yes s ↦ let gap = step_apart p.block_size k j v.wide s in inr (omega arith)
            | no ns' ↦
                let same : j ≡ k = omega arith in
                absurd (ne (ap (λ i. c + i * p.block_size) same ∙ ap (λ a. a + k * p.block_size) e))
          ]
        ]
        | no n ↦ elim (v.far c d h h' n) [ inl a ↦ inl (omega arith) | inr a ↦ inr (omega arith) ]
      ]

  pub held_apart :
      (x y : ℕ)
      → 1 ≤ held x p lent
      → 1 ≤ held y p lent
      → x ≢ y
      → (x + p.block_size ≤ y) ⊎ (y + p.block_size ≤ x)
  held_apart x y h k n =
      let (c, i, there, r, e) = v.placed x h in
      let (d, j, there', r', e') = v.placed y k in
      let ne : c + i * p.block_size ≢ d + j * p.block_size = λ s. n (e ∙ s ∙ sym e') in
      elim (placed_apart c d i j there there' r r' ne) [
        | inl a ↦ inl (omega arith)
        | inr a ↦ inr (omega arith)
      ]

-- In every use of a pool whose chunks have fewer than 2^64 bytes, a block that the client holds is
-- held once and is not free, and its bytes lie in the bytes allocated for a chunk of the pool and
-- apart from those of every other block that the client holds.
pub lent_apart :
    (block_size blocks_per_chunk : ℕ) (u : Use) (x : ℕ)
    → max block_size 8 * blocks_per_chunk < 2 ^ 64
    → Reach block_size blocks_per_chunk u
    → 1 ≤ count x u.lent
    → (count x u.lent ≡ 1)
      × (count x u.pool.free_list ≡ 0)
      × ((c : ℕ) × (1 ≤ count c u.pool.chunks)
          × (c ≤ x)
          × (x + u.pool.block_size ≤ c + chunk_bytes u.pool))
      × ((y : ℕ)
          → 1 ≤ count y u.lent
          → x ≢ y
          → (x + u.pool.block_size ≤ y) ⊎ (y + u.pool.block_size ≤ x))
lent_apart block_size n u x small r h =
    let v = Reach-Inv block_size n u small r in
    let exact = v.exact in
    let once = v.once x in
    let (c, k, there, l, e) = v.placed x (omega arith) in
    let room = within_chunk u.pool.block_size k u.pool.blocks_per_chunk l in
    (
      omega arith,
      omega arith,
      (c, there, omega arith, omega arith),
      λ y k n. held_apart u.pool u.lent v x y (omega arith) (omega arith) n,
    )

-- In every use of a pool whose chunks have fewer than 2^64 bytes, `TotalAllocated` is, modulo 2^64, the size of a block times the number of the blocks
-- that are free or held by the client: no block is lost.
total_allocated_lem :
    (block_size blocks_per_chunk : ℕ) (u : Use)
    → max block_size 8 * blocks_per_chunk < 2 ^ 64
    → Reach block_size blocks_per_chunk u
    → total_allocated u.pool
      ≡ ((length u.pool.free_list + length u.lent) * u.pool.block_size) % 2 ^ 64
unfolding total_allocated
total_allocated_lem block_size n u small r =
    let v = Reach-Inv block_size n u small r in
    ap (λ k. k % 2 ^ 64)
      (swap (length u.pool.chunks) u.pool.block_size u.pool.blocks_per_chunk
        ∙ ap (λ t. t * u.pool.block_size) (sym v.total))
  where
    swap : (a b c : ℕ) → a * b * c ≡ a * c * b
    swap a b c = grind arith

-- A pool whose chunks have room for a block gives a block, whether it has to grow or not.
pub allocate_gives :
    (page : ℕ) (p : FixedSizeMemoryPool)
    → 1 ≤ p.blocks_per_chunk
    → (b : ℕ) × (q : FixedSizeMemoryPool) × (allocate page p ≡ (some b, q))
unfolding allocate or_expand pop pop_from expand
allocate_gives page p h = by_list p.free_list refl
  where
    grown :
        (free : List ℕ)
        → 1 ≤ length free
        → (b : ℕ) × (q : FixedSizeMemoryPool) × (pop_from free (expand page p) ≡ (some b, q))
    grown [] l = elim l [ ]
    grown (b ∷ bs) l = (b, record (expand page p) { free_list = bs }, refl)

    by_list :
        (free : List ℕ)
        → p.free_list ≡ free
        → (b : ℕ) × (q : FixedSizeMemoryPool) × (or_expand page (pop_from free p) ≡ (some b, q))
    by_list [] e =
        let long = length-push_blocks page p.block_size 0 p.blocks_per_chunk p.free_list in
        grown (expand page p).free_list (omega arith)
    by_list (b ∷ bs) e = (b, record p { free_list = bs }, refl)
