-- ===== src/Memory/SlabPool/Bridge.antt =====
-- A block that `SlabPoolBridge` hands out, and gets back.
use scicompute.Base.{
  ℕ, zero, suc, ◌+◌, ◌*◌, ◌≤◌, ◌<◌, ◌≡◌, ◌≢◌, true, some, none, List, [], ◌∷◌, ◌++◌, arith, ap,
  refl, sym, ◌∙◌, ltb, ◌||◌, ◌==◌, if_true, if_false, ==_refl, ==_ne,
}
use scicompute.Base.Assoc.{find, put, erase, find-put_same, erase-put, erase-absent}
use scicompute.Memory.SlabPool.{
  Slab, SlabPoolBridge, index_from, index_for, slab_size, can_allocate, carve, expand, take_block,
  pop_from, or_expand, allocate, set_slab, bridge_allocate, bridge_deallocate, note, give_back,
  max_slab_size,
}
use scicompute.Memory.SlabPool.Sizes.{index_for-slab_size}

-- The free blocks of a chunk of `n` blocks, the last one first.
chunk_blocks : ℕ → ℕ → ℕ → List ℕ
chunk_blocks chunk block_size zero = []
chunk_blocks chunk block_size (suc n) = (chunk + n * block_size) ∷ chunk_blocks chunk block_size n

carve-last :
    (chunk block_size i n : ℕ) (free : List ℕ)
    → carve chunk block_size i (suc n) free
      ≡ (chunk + (i + n) * block_size) ∷ carve chunk block_size i n free
unfolding carve
carve-last chunk block_size i zero free =
    ap (λ k. (chunk + k * block_size) ∷ free) {x = i} (omega arith)
carve-last chunk block_size i (suc n) free =
    carve-last chunk block_size (suc i) n ((chunk + i * block_size) ∷ free)
    ∙ ap
        (λ k.
          (chunk + k * block_size)
          ∷ carve chunk block_size (suc i) n ((chunk + i * block_size) ∷ free))
        {x = suc i + n} (omega arith)

carve-chunk_blocks :
    (chunk block_size n : ℕ) → carve chunk block_size 0 n [] ≡ chunk_blocks chunk block_size n
unfolding carve chunk_blocks
carve-chunk_blocks chunk block_size zero = refl
carve-chunk_blocks chunk block_size (suc n) =
    carve-last chunk block_size 0 n []
    ∙ ap (λ k. (chunk + k * block_size) ∷ carve chunk block_size 0 n []) {x = 0 + n} (omega arith)
    ∙ ap (◌∷◌ (chunk + n * block_size)) (carve-chunk_blocks chunk block_size n)

-- A slab with a free block gives the top one and makes no chunk.
pub take_block-top :
    (chunk p : ℕ) (ps : List ℕ) (s : Slab)
    → s.free_list ≡ p ∷ ps
    → take_block chunk s ≡ (some p, record s { free_list = ps })
unfolding take_block
take_block-top chunk p ps s f = ap (λ l. or_expand chunk s (pop_from l s)) f

-- A slab without a free block makes a chunk of n + 1 blocks, gives its last block and keeps the
-- others, the last of them on top.
take_block-expand :
    (chunk n : ℕ) (s : Slab)
    → s.blocks_per_chunk ≡ suc n
    → s.free_list ≡ []
    → take_block chunk s ≡ (
      some (chunk + n * s.block_size),
      record s { chunks = s.chunks ++ chunk ∷ []; free_list = chunk_blocks chunk s.block_size n },
    )
unfolding take_block chunk_blocks
take_block-expand chunk n s e f =
    ap (λ l. or_expand chunk s (pop_from l s)) f
    ∙ ap (λ l. pop_from l (expand chunk s))
        (ap (λ m. carve chunk s.block_size 0 m s.free_list) e
          ∙ ap (carve chunk s.block_size 0 (suc n)) f
          ∙ carve-chunk_blocks chunk s.block_size (suc n))

can_allocate-slab_size : (bytes : ℕ) → 0 < bytes → can_allocate (slab_size bytes) ≡ true
unfolding can_allocate slab_size index_for index_from
can_allocate-slab_size bytes h = ground arith

module _ (chunk bytes p : ℕ) (s : Slab) (b : SlabPoolBridge) (lo : 0 < bytes) (hi : bytes ≤ 4096)
    (e : take_block chunk (b.allocator (index_for bytes)) ≡ (some p, s)) where
  -- The pool after a block was handed out.
  abbrev lent : SlabPoolBridge
  lent = record {
    allocator = set_slab b.allocator (index_for bytes) s;
    size_map = put p (slab_size bytes) b.size_map;
  }

  bridge_allocate-lent : bridge_allocate chunk bytes b ≡ (some p, lent)
  unfolding bridge_allocate
  bridge_allocate-lent =
      let a = b.allocator in
      let given : allocate chunk (slab_size bytes) a ≡ (some p, set_slab a (index_for bytes) s) =
        if_true _ _ (can_allocate-slab_size bytes lo)
        ∙ ap (λ k. ((take_block chunk (a k)).0, set_slab a k (take_block chunk (a k)).1))
            (index_for-slab_size bytes)
        ∙ ap (λ t. (t.0, set_slab a (index_for bytes) t.1)) e in
      if_false {b = bytes == 0 || ltb max_slab_size bytes} _ _ (ground arith)
      ∙ ap (λ r. note (slab_size bytes) r b) given

  abbrev returned : SlabPoolBridge
  returned = record {
    allocator =
        set_slab lent.allocator (index_for bytes) (record s { free_list = p ∷ s.free_list });
    size_map = b.size_map;
  }

  bridge_deallocate-lent : find p b.size_map ≡ none → bridge_deallocate (some p) lent ≡ returned
  unfolding bridge_deallocate
  bridge_deallocate-lent new =
      ap (λ r. give_back p r lent) (find-put_same p (slab_size bytes) b.size_map)
      ∙ ap
          (λ (k : ℕ). record {
            allocator =
                set_slab lent.allocator k
                  (record (lent.allocator k) { free_list = p ∷ (lent.allocator k).free_list });
            size_map = erase p lent.size_map;
          })
          (index_for-slab_size bytes)
      ∙ ap
          (λ (t : Slab). record {
            allocator =
                set_slab lent.allocator (index_for bytes)
                  (record t { free_list = p ∷ t.free_list });
            size_map = erase p lent.size_map;
          })
          (if_true _ _ (==_refl (index_for bytes)))
      ∙ ap (λ m. record returned { size_map = m })
          (erase-put p (slab_size bytes) b.size_map ∙ erase-absent p b.size_map new)

-- When the slab of the size gives the block p, which the map does not list, `allocate` of 1 to 4096
-- bytes returns p, and `deallocate` of p puts it back on top of that same slab, leaves the other
-- slabs as they were and restores the map.
pub bridge_deallocate-bridge_allocate :
    (chunk bytes p : ℕ) (s : Slab) (b : SlabPoolBridge)
    → 0 < bytes
    → bytes ≤ 4096
    → take_block chunk (b.allocator (index_for bytes)) ≡ (some p, s)
    → find p b.size_map ≡ none
    → ((bridge_allocate chunk bytes b).0 ≡ some p)
      × ((bridge_deallocate (some p) (bridge_allocate chunk bytes b).1).allocator (index_for bytes)
          ≡ record s { free_list = p ∷ s.free_list })
      × ((i : ℕ)
          → i ≢ index_for bytes
          → (bridge_deallocate (some p) (bridge_allocate chunk bytes b).1).allocator i
            ≡ b.allocator i)
      × ((bridge_deallocate (some p) (bridge_allocate chunk bytes b).1).size_map ≡ b.size_map)
bridge_deallocate-bridge_allocate chunk bytes p s b lo hi e new =
    let given = bridge_allocate-lent chunk bytes p s b lo hi e in
    let back : bridge_deallocate (some p) (bridge_allocate chunk bytes b).1
        ≡ returned chunk bytes p s b lo hi e =
      ap (λ r. bridge_deallocate (some p) r.1) given
      ∙ bridge_deallocate-lent chunk bytes p s b lo hi e new in
    (
      ap (λ r. r.0) given,
      ap (λ r. r.allocator (index_for bytes)) back ∙ if_true _ _ (==_refl (index_for bytes)),
      λ i n.
          ap (λ r. r.allocator i) back
          ∙ if_false _ _ (==_ne (index_for bytes) i (λ h. n (sym h)))
          ∙ if_false _ _ (==_ne (index_for bytes) i (λ h. n (sym h))),
      ap (λ r. r.size_map) back,
    )
