-- ===== src/Memory/Pools/Manager/Registry.antt =====
-- The pools that `MemoryPoolManager` keeps.
use scicompute.Base.{
  ◌%◌, ◌^◌, ◌*◌, max, ℕ, ◌+◌, ◌≡◌, ◌≢◌, sym, ap, ◌∙◌, Option, some, none, List, arith, inl, inr,
  Option-cases,
}
use scicompute.Base.Assoc.{find, put, total, erase-absent, find-put_same, find-put_other}
use scicompute.Memory.Pools.FixedPool.{FixedSizeMemoryPool, total_allocated}
use scicompute.Memory.Pools.FixedPool
use scicompute.Memory.Pools.Manager.{
  MemoryPoolManager, default_blocks, get_or_make, get_fixed_pool, get_slab_allocator,
  total_memory_usage,
}

-- What was registered under the size, or a pool as the constructor makes it.
abbrev or_new : ℕ → Option FixedSizeMemoryPool → FixedSizeMemoryPool
or_new size (some p) = p
or_new size none = FixedPool.create size default_blocks

total-put_new :
    (size : ℕ) (p : FixedSizeMemoryPool) (pools : List (ℕ × FixedSizeMemoryPool))
    → find size pools ≡ none
    → total total_allocated (put size p pools) ≡ total_allocated p + total total_allocated pools
unfolding put total
total-put_new size p pools e =
    ap (λ l. total_allocated p + total total_allocated l) (erase-absent size pools e)

new_pool_empty : (size n : ℕ) → total_allocated (FixedPool.create size n) ≡ 0
unfolding total_allocated FixedPool.create
new_pool_empty size n = ap (λ k. k % 2 ^ 64) (nothing (max size 8) n)
  where
    nothing : (a b : ℕ) → 0 * a * b ≡ 0
    nothing a b = grind arith

-- `GetFixedPool` gives the pool that is registered under the size, and a new one only if there is
-- none; asking again gives the same and changes nothing; the other pools, the slab allocator and the
-- total of `TotalMemoryUsage` stay as they were.
get_fixed_pool_lem :
    (size : ℕ) (m : MemoryPoolManager)
    → (find size (get_fixed_pool size m).1.fixed_pools
        ≡ some (or_new size (find size m.fixed_pools)))
      × (get_fixed_pool size (get_fixed_pool size m).1 ≡ get_fixed_pool size m)
      × ((other : ℕ)
          → other ≢ size
          → find other (get_fixed_pool size m).1.fixed_pools ≡ find other m.fixed_pools)
      × (get_slab_allocator (get_fixed_pool size m).1 ≡ get_slab_allocator m)
      × (total_memory_usage (get_fixed_pool size m).1 ≡ total_memory_usage m)
unfolding get_fixed_pool get_or_make get_slab_allocator total_memory_usage
get_fixed_pool_lem size m = elim (Option-cases (find size m.fixed_pools)) [
  | inl absent ↦
      let made : MemoryPoolManager = record m {
        fixed_pools = put size (FixedPool.create size default_blocks) m.fixed_pools;
      } in
      let e : get_fixed_pool size m ≡ (size, made) = ap (λ o. get_or_make size o m) absent in
      let there : find size made.fixed_pools ≡ some (FixedPool.create size default_blocks) =
        find-put_same size (FixedPool.create size default_blocks) m.fixed_pools in
      (
        ap (λ r. find size r.1.fixed_pools) e ∙ there ∙ ap (λ o. some (or_new size o)) (sym absent),
        ap (λ r. get_fixed_pool size r.1) e ∙ ap (λ o. get_or_make size o made) there ∙ sym e,
        λ other n.
            ap (λ r. find other r.1.fixed_pools) e
            ∙ find-put_other other size (FixedPool.create size default_blocks) m.fixed_pools n,
        ap (λ r. r.1.slab_allocator) e,
        ap (λ k. k % 2 ^ 64)
            (ap (λ r. total total_allocated r.1.fixed_pools) e
              ∙ total-put_new size (FixedPool.create size default_blocks) m.fixed_pools absent
              ∙ ap (λ k. k + total total_allocated m.fixed_pools)
                  (new_pool_empty size default_blocks)
              ∙ omega arith),
      )
  | inr (p, found) ↦
      let e : get_fixed_pool size m ≡ (size, m) = ap (λ o. get_or_make size o m) found in
      (
        ap (λ r. find size r.1.fixed_pools) e ∙ found ∙ ap (λ o. some (or_new size o)) (sym found),
        ap (λ r. get_fixed_pool size r.1) e,
        λ other n. ap (λ r. find other r.1.fixed_pools) e,
        ap (λ r. r.1.slab_allocator) e,
        ap (λ r. total total_allocated r.1.fixed_pools % 2 ^ 64) e,
      )
]
