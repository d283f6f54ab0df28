-- ===== src/Memory/Pools/FixedPool/Chunks.antt =====
-- The blocks that a new chunk adds to the free list.
use scicompute.Base.{
  ℕ, zero, suc, ◌+◌, ◌*◌, ◌≤◌, ◌<◌, ◌≡◌, ◌≢◌, refl, List, ◌∷◌, length, arith, ==_ne, ℕ_discrete,
}
use scicompute.Base.Sets.{count}
use scicompute.Memory.Pools.FixedPool.{push_blocks}

pub count-push_blocks_other :
    (x page size i n : ℕ) (free : List ℕ)
    → ((k : ℕ) → i ≤ k → k < i + n → x ≢ page + k * size)
    → count x (push_blocks page size i n free) ≡ count x free
unfolding push_blocks count
count-push_blocks_other x page size i zero free h = refl
count-push_blocks_other x page size i (suc n) free h =
    let here = ==_ne x (page + i * size) (h i (omega arith) (omega arith)) in
    let ih =
      count-push_blocks_other x page size (suc i) n ((page + i * size) ∷ free)
        (λ k lo hi. h k (omega arith) (omega arith)) in
    ground arith

pub step_apart : (size i k : ℕ) → 1 ≤ size → i < k → i * size + size ≤ k * size
step_apart size i k h l = grind arith

pub count-push_blocks_bound :
    (x page size i n : ℕ) (free : List ℕ)
    → 1 ≤ size
    → count x (push_blocks page size i n free) ≤ suc (count x free)
unfolding push_blocks count
count-push_blocks_bound x page size i zero free w = omega arith
count-push_blocks_bound x page size i (suc n) free w = elim (ℕ_discrete x (page + i * size)) [
  | yes e ↦
      let others =
        count-push_blocks_other x page size (suc i) n ((page + i * size) ∷ free)
          (λ k lo hi d. let gap = step_apart size i k w lo in omega arith) in
      ground arith
  | no ne ↦
      let ih = count-push_blocks_bound x page size (suc i) n ((page + i * size) ∷ free) w in
      let here = ==_ne x (page + i * size) ne in ground arith
]

-- A block that the loop adds has its place in the chunk.
pub push_blocks-placed :
    (x page size i n : ℕ) (free : List ℕ)
    → count x free < count x (push_blocks page size i n free)
    → (k : ℕ) × (k < i + n) × (x ≡ page + k * size)
unfolding push_blocks count
push_blocks-placed x page size i zero free h = let bad : 1 ≤ 0 = omega arith in elim bad [ ]
push_blocks-placed x page size i (suc n) free h = elim (ℕ_discrete x (page + i * size)) [
  | yes e ↦ (i, omega arith, e)
  | no ne ↦
      let here = ==_ne x (page + i * size) ne in
      let (k, l, e) =
        push_blocks-placed x page size (suc i) n ((page + i * size) ∷ free) (ground arith) in
      (k, omega arith, e)
]

pub length-push_blocks :
    (page size i n : ℕ) (free : List ℕ) → length (push_blocks page size i n free) ≡ n + length free
unfolding push_blocks
length-push_blocks page size i zero free = omega arith
length-push_blocks page size i (suc n) free =
    let ih = length-push_blocks page size (suc i) n ((page + i * size) ∷ free) in omega arith
