-- ===== src/Memory/Pools/Slabs/Tests.antt =====
-- `SlabAllocator` of memory_pool.hpp at concrete inputs.
use scicompute.Base.{
  Bool-cases, ◌==◌, inl, inr, subst, sym, if_true, if_false, ◌+◌, ◌⊎◌, List, [], ◌∷◌, ℕ, ◌≤◌, ◌≡◌,
  ◌≢◌, refl, some, arith,
}
use scicompute.Memory.Pools.FixedPool
use scicompute.Memory.Pools.FixedPool.{push_blocks, Fresh, chunk_bytes}
use scicompute.Base.Sets.{count}
use scicompute.Memory.Pools.Slabs.{
  SlabAllocator, create, allocate, get_slab_size, start, allocates, set_lent, index_for, Reach,
}
use scicompute.Memory.Pools.Slabs.Serving.{allocate_serves}

rounded : (get_slab_size 0 ≡ 16) × (get_slab_size 2000 ≡ 4096) × (get_slab_size 5000 ≡ 5000)
unfolding get_slab_size
rounded = (refl, refl, refl)

-- A slab of 1024 bytes has four blocks to a chunk.
fourth : (allocate 8192 1000 create).0 ≡ some 11264
unfolding allocate create FixedPool.pop FixedPool.or_expand FixedPool.pop_from FixedPool.expand
fourth = refl

abbrev grown : SlabAllocator
grown = (allocate 8192 1000 create).1

abbrev lent : ℕ → List ℕ
lent = set_lent (λ i. []) 6 (11264 ∷ [])

grown-Reach : Reach grown lent
unfolding Fresh count index_for create
grown-Reach = allocates 8192 1000 11264 6 start (λ j c h. elim h [ ]) refl fourth

-- The bytes from 16384 on are in no slab.
grown-Fresh : (j : ℕ) → Fresh 16384 (grown j)
unfolding Fresh allocate create count chunk_bytes
grown-Fresh j = elim (Bool-cases (6 == j)) [
  | inl t ↦ subst (Fresh 16384) (sym (if_true _ _ t)) (λ c h. ground arith)
  | inr f ↦ subst (Fresh 16384) (sym (if_false _ _ f)) (λ c h. elim h [ ])
]

allocate_serves_example :
    (b i : ℕ) × ((allocate 16384 1024 grown).0 ≡ some b)
    × (index_for 1024 ≡ some i)
    × ((c : ℕ) × (1 ≤ count c ((allocate 16384 1024 grown).1 i).chunks)
        × (c ≤ b)
        × (b + 1024 ≤ c + chunk_bytes ((allocate 16384 1024 grown).1 i)))
    × ((y : ℕ) → 1 ≤ count y (lent i) → (b + 1024 ≤ y) ⊎ (y + (grown i).block_size ≤ b))
    × (((allocate 16384 1024 grown).0, (allocate 16384 1024 grown).1 i)
        ≡ FixedPool.allocate 16384 (grown i))
    × ((j : ℕ) → i ≢ j → (allocate 16384 1024 grown).1 j ≡ grown j)
allocate_serves_example =
    allocate_serves 16384 1024 grown lent grown-Reach grown-Fresh (omega arith)
