-- ===== src/Memory/Pools/Slabs/Classes.antt =====
-- The classes of `SlabAllocator`.
use scicompute.Base.{ℕ, zero, suc, ◌<◌, ◌≤◌, ◌≡◌, Option, some, none, leb, arith, refl, subst}
use scicompute.Memory.Pools.Slabs.{
  sizes, size_at, index_from, index_for, can_allocate, get_slab_size,
}

-- The class of a size: none over 4096, and otherwise the first of the eight that it fits in.
abbrev pub Classed : ℕ → Option ℕ → Type 0
Classed size none = 4096 < size
Classed size (some i) =
    (size ≤ size_at sizes i) × (i < 8) × ((j : ℕ) → j < i → size_at sizes j < size)

index_for-Classed : (size : ℕ) → Classed size (index_for size)
unfolding index_for index_from
index_for-Classed size = ground arith

-- A size can be allocated exactly when it is at most 4096; its class is then the first of the eight
-- that it fits in, and `GetSlabSize` is never less than the size.
pub slab_classes :
    (size : ℕ)
    → (can_allocate size ≡ leb size 4096)
      × (size ≤ get_slab_size size)
      × Classed size (index_for size)
unfolding can_allocate get_slab_size index_for index_from
slab_classes size = (ground arith, ground arith, index_for-Classed size)

pub class_of :
    (size : ℕ) → size ≤ 4096 → (i : ℕ) × (index_for size ≡ some i) × Classed size (some i)
class_of size h = go (index_for size) refl (index_for-Classed size)
  where
    go :
        (o : Option ℕ)
        → index_for size ≡ o
        → Classed size o
        → (i : ℕ) × (index_for size ≡ some i) × Classed size (some i)
    go none e c = let bad : 1 ≤ 0 = omega arith in elim bad [ ]
    go (some i) e c = (i, e, c)

size_at-bound : (i : ℕ) → size_at sizes i ≤ 4096
size_at-bound zero = omega arith
size_at-bound (suc zero) = omega arith
size_at-bound (suc (suc zero)) = omega arith
size_at-bound (suc (suc (suc zero))) = omega arith
size_at-bound (suc (suc (suc (suc zero)))) = omega arith
size_at-bound (suc (suc (suc (suc (suc zero))))) = omega arith
size_at-bound (suc (suc (suc (suc (suc (suc zero)))))) = omega arith
size_at-bound (suc (suc (suc (suc (suc (suc (suc zero))))))) = omega arith
size_at-bound (suc (suc (suc (suc (suc (suc (suc (suc i)))))))) = omega arith

pub no_class : (size : ℕ) → 4096 < size → index_for size ≡ none
no_class size h = go (index_for size) refl (index_for-Classed size)
  where
    go : (o : Option ℕ) → index_for size ≡ o → Classed size o → index_for size ≡ none
    go none e c = e
    go (some i) e (fits, l, _) =
        let top = size_at-bound i in let bad : 1 ≤ 0 = omega arith in elim bad [ ]

pub class_below : (size i : ℕ) → index_for size ≡ some i → (size ≤ size_at sizes i) × (i < 8)
class_below size i e = let c = subst (Classed size) e (index_for-Classed size) in (c.0, c.1)
