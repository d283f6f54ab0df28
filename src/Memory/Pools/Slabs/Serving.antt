-- ===== src/Memory/Pools/Slabs/Serving.antt =====
-- The blocks that `SlabAllocator` serves.
use scicompute.Base.{
  ◌+◌, ◌⊎◌, true, inl, inr, ℕ, zero, suc, ◌<◌, ◌≤◌, ◌≡◌, ◌≢◌, ◌/◌, max, Option, some, none, List,
  [], ◌∷◌, ◌==◌, arith, refl, sym, ap, subst, ◌∙◌, ℕ_discrete, if_true, if_false, ==_refl, ==_ne,
}
use scicompute.Memory.Pools.FixedPool.{
  FixedSizeMemoryPool, pop, pop_from, expand, or_expand, deallocate, Fresh, chunk_bytes,
}
use scicompute.Memory.Pools.FixedPool.Blocks.{allocate_gives, held_apart}
use scicompute.Memory.Pools.FixedPool.Holding.{
  Inv, create-Inv, allocate-Inv, deallocate-Inv, within_chunk,
}
use scicompute.Base.Sets.{count, take_out}
use scicompute.Memory.Pools.FixedPool
use scicompute.Memory.Pools.Slabs.{
  Slab, SlabAllocator, Reach, start, allocates, deallocates, sizes, size_at, index_for, set_slab,
  set_lent, create, add_chunk, or_add_chunk, or_locked, take_block, allocate_at, allocate,
  deallocate_at, deallocate_sized,
}
use scicompute.Memory.Pools.Slabs.Classes.{class_of, no_class, class_below}

-- A slab serves as a pool of one block size does: the second `Pop` finds what the first found.
take_block-allocate : (page : ℕ) (s : Slab) → take_block page s ≡ FixedPool.allocate page s
unfolding take_block or_locked or_add_chunk add_chunk pop or_expand expand FixedPool.allocate
take_block-allocate page s = by_list s.free_list refl
  where
    by_list :
        (free : List ℕ)
        → s.free_list ≡ free
        → or_locked page (pop_from free s) ≡ or_expand page (pop_from free s)
    by_list [] e = ap (λ l. or_add_chunk page (pop_from l s)) e
    by_list (b ∷ bs) e = refl

-- Each slab and the blocks of its class that the client holds.
abbrev Kept : SlabAllocator → (ℕ → List ℕ) → Type 0
Kept a lent =
    (i : ℕ)
    → i < 8
    → Inv (a i) (lent i)
      × ((a i).block_size ≡ size_at sizes i)
      × ((a i).blocks_per_chunk ≡ max 1 (4096 / size_at sizes i))

create-class : (i : ℕ) → i < 8 → Inv (create i) []
unfolding create FixedPool.create
create-class zero l = create-Inv 16 256 (omega arith)
create-class (suc zero) l = create-Inv 32 128 (omega arith)
create-class (suc (suc zero)) l = create-Inv 64 64 (omega arith)
create-class (suc (suc (suc zero))) l = create-Inv 128 32 (omega arith)
create-class (suc (suc (suc (suc zero)))) l = create-Inv 256 16 (omega arith)
create-class (suc (suc (suc (suc (suc zero))))) l = create-Inv 512 8 (omega arith)
create-class (suc (suc (suc (suc (suc (suc zero)))))) l = create-Inv 1024 4 (omega arith)
create-class (suc (suc (suc (suc (suc (suc (suc zero))))))) l = create-Inv 4096 1 (omega arith)
create-class (suc (suc (suc (suc (suc (suc (suc (suc i)))))))) l =
    let bad : 1 ≤ 0 = omega arith in elim bad [ ]

Kept-create : Kept create (λ i. [])
unfolding create
Kept-create i l = (create-class i l, refl, refl)

-- The fields that `allocate` of a pool leaves alone.
abbrev Same : Slab → Slab → Type 0
Same s t = (t.block_size ≡ s.block_size) × (t.blocks_per_chunk ≡ s.blocks_per_chunk)

pop_from-Same : (free : List ℕ) (s t : Slab) → Same t s → Same t (pop_from free s).1
unfolding pop_from
pop_from-Same [] s t h = h
pop_from-Same (b ∷ bs) s t h = h

allocate-Same : (page : ℕ) (s : Slab) → Same s (FixedPool.allocate page s).1
unfolding FixedPool.allocate or_expand pop expand
allocate-Same page s = go (pop s) (pop_from-Same s.free_list s s (refl, refl))
  where
    go : (r : Option ℕ × Slab) → Same s r.1 → Same s (or_expand page r).1
    go (none, t) h = pop_from-Same (expand page t).free_list (expand page t) s h
    go (some b, t) h = h

Kept-set_slab :
    (a : SlabAllocator) (lent : ℕ → List ℕ) (i : ℕ) (s : Slab) (bs : List ℕ)
    → Kept a lent
    → Inv s bs
    → Same (a i) s
    → Kept (set_slab a i s) (set_lent lent i bs)
Kept-set_slab a lent i s bs kept v h j l = elim (ℕ_discrete i j) [
  | yes e ↦
      let hit : (i == j) ≡ true = ap (◌==◌ i) (sym e) ∙ ==_refl i in
      let old = kept j l in
      let here : set_slab a i s j ≡ s = if_true _ _ hit in
      (
        subst (λ bs. Inv (set_slab a i s j) bs) (sym (if_true _ _ hit))
            (subst (λ s. Inv s bs) (sym here) v),
        ap (λ (t : Slab). t.block_size) here ∙ h.0 ∙ ap (λ k. (a k).block_size) e ∙ old.1,
        ap (λ (t : Slab). t.blocks_per_chunk) here
            ∙ h.1
            ∙ ap (λ k. (a k).blocks_per_chunk) e
            ∙ old.2,
      )
  | no n ↦
      let miss = ==_ne i j n in
      let old = kept j l in
      let there : set_slab a i s j ≡ a j = if_false _ _ miss in
      (
        subst (λ bs. Inv (set_slab a i s j) bs) (sym (if_false _ _ miss))
            (subst (λ s. Inv s (lent j)) (sym there) old.0),
        ap (λ (t : Slab). t.block_size) there ∙ old.1,
        ap (λ (t : Slab). t.blocks_per_chunk) there ∙ old.2,
      )
]

-- The slab of the class after a request.
allocate-slab :
    (page size b i : ℕ) (a : SlabAllocator)
    → index_for size ≡ some i
    → (allocate page size a).0 ≡ some b
    → (FixedPool.allocate page (a i) ≡ (some b, (take_block page (a i)).1))
      × ((allocate page size a).1 ≡ set_slab a i (take_block page (a i)).1)
unfolding allocate allocate_at
allocate-slab page size b i a e f =
    let result : allocate page size a ≡ allocate_at page (some i) a =
      ap (λ o. allocate_at page o a) e in
    (
      sym (take_block-allocate page (a i))
          ∙ ap (λ o. (o, (take_block page (a i)).1)) (sym (ap (λ t. t.0) result) ∙ f),
      ap (λ t. t.1) result,
    )

Reach-Kept : (a : SlabAllocator) (lent : ℕ → List ℕ) → Reach a lent → Kept a lent
unfolding deallocate_sized deallocate_at deallocate
Reach-Kept a lent start = Kept-create
Reach-Kept a lent (allocates {a = b} {lent = held} page size x i r new e f) =
    let kept = Reach-Kept b held r in
    let (given, result) = allocate-slab page size x i b e f in
    let next = (take_block page (b i)).1 in
    let v = (kept i (class_below size i e).1).0 in
    subst (λ c. Kept c (set_lent held i (x ∷ held i))) (sym result)
      (Kept-set_slab b held i next (x ∷ held i) kept
        (allocate-Inv (b i) next (held i) page x v (new i) given)
        (subst (λ t. Same (b i) t.1) given (allocate-Same page (b i))))
Reach-Kept a lent (deallocates {a = b} {lent = held} x size i r e h) =
    let kept = Reach-Kept b held r in
    let v = (kept i (class_below size i e).1).0 in
    subst (λ o. Kept (deallocate_at x o b) (set_lent held i (take_out x (held i)))) (sym e)
      (Kept-set_slab b held i (deallocate (some x) (b i)) (take_out x (held i)) kept
        (deallocate-Inv (b i) (held i) x v h) (refl, refl))

-- The place of a block just lent, for a size that fits in a block.
lent_room :
    (s : Slab) (lent : List ℕ) (b size : ℕ)
    → Inv s (b ∷ lent)
    → size ≤ s.block_size
    → ((c : ℕ) × (1 ≤ count c s.chunks) × (c ≤ b) × (b + size ≤ c + chunk_bytes s))
      × ((y : ℕ) → 1 ≤ count y lent → (b + size ≤ y) ⊎ (y + s.block_size ≤ b))
unfolding count
lent_room s lent b size v h =
    let here = ==_refl b in
    let once = v.once b in
    let (c, k, there, l, e) = v.placed b (ground arith) in
    let room = within_chunk s.block_size k s.blocks_per_chunk l in
    let exact = v.exact in
    (
      (c, there, omega arith, omega arith),
      λ y m.
          let other : b ≢ y = λ same.
            let again = ap (λ z. count z lent) same in
            let bad : 1 ≤ 0 = ground arith in elim bad [ ] in
          elim (held_apart s (b ∷ lent) v b y (ground arith) (ground arith) other) [
            | inl a ↦ inl (omega arith)
            | inr a ↦ inr a
          ],
    )

-- From every state that a client can bring the allocator to, when `operator new[]` would give bytes
-- that no slab has, a request of at most 4096 bytes gets a block of the slab of its class, exactly as
-- the pool of that block size would give it: so many bytes from the block on lie in the bytes of a
-- chunk of the slab and apart from every block of the slab that the client holds. The other slabs
-- stay as they were.
pub allocate_serves :
    (page size : ℕ) (a : SlabAllocator) (lent : ℕ → List ℕ)
    → Reach a lent
    → ((j : ℕ) → Fresh page (a j))
    → size ≤ 4096
    → (b i : ℕ) × ((allocate page size a).0 ≡ some b)
      × (index_for size ≡ some i)
      × ((c : ℕ) × (1 ≤ count c ((allocate page size a).1 i).chunks)
          × (c ≤ b)
          × (b + size ≤ c + chunk_bytes ((allocate page size a).1 i)))
      × ((y : ℕ) → 1 ≤ count y (lent i) → (b + size ≤ y) ⊎ (y + (a i).block_size ≤ b))
      × (((allocate page size a).0, (allocate page size a).1 i) ≡ FixedPool.allocate page (a i))
      × ((j : ℕ) → i ≢ j → (allocate page size a).1 j ≡ a j)
unfolding allocate allocate_at
allocate_serves page size a lent r new h =
    let (i, e, class) = class_of size h in
    let fits = class.0 in
    let (v, wide, several) = Reach-Kept a lent r i class.1 in
    let (b, q, given) = allocate_gives page (a i) (ground (arith, several)) in
    let same = take_block-allocate page (a i) in
    let result : allocate page size a ≡ allocate_at page (some i) a =
      ap (λ o. allocate_at page o a) e in
    let served : (allocate page size a).0 ≡ some b =
      ap (λ t. t.0) result ∙ ap (λ t. t.0) (same ∙ given) in
    let slab : (allocate page size a).1 i ≡ q =
      ap (λ t. t.1 i) result ∙ if_true _ _ (==_refl i) ∙ ap (λ t. t.1) (same ∙ given) in
    let long : q.block_size ≡ (a i).block_size =
      (subst (λ t. Same (a i) t.1) given (allocate-Same page (a i))).0 in
    let (room, apart) =
      lent_room q (lent i) b size (allocate-Inv (a i) q (lent i) page b v (new i) given)
        (omega arith) in
    (
      b,
      i,
      served,
      e,
      subst
          (λ (s : Slab).
            (c : ℕ) × (1 ≤ count c s.chunks) × (c ≤ b) × (b + size ≤ c + chunk_bytes s))
          (sym slab) room,
      subst (λ w. (y : ℕ) → 1 ≤ count y (lent i) → (b + size ≤ y) ⊎ (y + w ≤ b)) long apart,
      ap (λ t. (t.0, t.1 i)) result
          ∙ ap (λ s. ((take_block page (a i)).0, s)) (if_true _ _ (==_refl i))
          ∙ same,
      λ j n. ap (λ t. t.1 j) result ∙ if_false _ _ (==_ne i j n),
    )

-- A request of more than 4096 bytes gets a null pointer and changes nothing, and a block given back
-- with such a size is dropped.
allocate_too_large :
    (page size b : ℕ) (a : SlabAllocator)
    → 4096 < size
    → (allocate page size a ≡ (none, a)) × (deallocate_sized (some b) size a ≡ a)
unfolding allocate allocate_at deallocate_sized deallocate_at
allocate_too_large page size b a h =
    let e = no_class size h in (ap (λ o. allocate_at page o a) e, ap (λ o. deallocate_at b o a) e)
