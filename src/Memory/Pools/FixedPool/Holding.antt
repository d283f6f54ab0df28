-- ===== src/Memory/Pools/FixedPool/Holding.antt =====
-- Who holds the blocks of a `FixedSizeMemoryPool`: each is held once, by the pool or by its client.
use scicompute.Base.{
  max, ◌%◌, ◌^◌, ℕ, ◌+◌, ◌*◌, ◌≤◌, ◌<◌, ◌≡◌, ◌≢◌, ◌⊎◌, inl, inr, refl, sym, ap, subst, ◌∙◌, Option,
  some, none, List, [], ◌∷◌, ◌++◌, length, length-append, arith, ==_refl, ==_ne, ℕ_discrete, dec_lt,
}
use scicompute.Base.Sets.{count, count-append, take_out, count-take_out, length-take_out}
use scicompute.Memory.Pools.FixedPool.{
  FixedSizeMemoryPool, create, push_blocks, expand, pop_from, pop, or_expand, allocate, deallocate,
  chunk_bytes, Fresh, Use, Reach, start, allocates, deallocates,
}
use scicompute.Memory.Pools.FixedPool.Chunks.{
  count-push_blocks_bound, push_blocks-placed, length-push_blocks,
}

-- The number of times that a pool and its client hold a block.
abbrev pub held : ℕ → FixedSizeMemoryPool → List ℕ → ℕ
held x p lent = count x p.free_list + count x lent

-- Every block is held once, either by the pool or by the client, and lies in a chunk; chunks are
-- apart; none is lost.
pub record Inv (p : FixedSizeMemoryPool) (lent : List ℕ) : Type 0 where
  pub wide : 1 ≤ p.block_size
  pub exact : chunk_bytes p ≡ p.block_size * p.blocks_per_chunk
  pub once : (x : ℕ) → held x p lent ≤ 1
  pub placed :
      (x : ℕ)
      → 1 ≤ held x p lent
      → (c k : ℕ) × (1 ≤ count c p.chunks) × (k < p.blocks_per_chunk) × (x ≡ c + k * p.block_size)
  pub far :
      (c d : ℕ)
      → 1 ≤ count c p.chunks
      → 1 ≤ count d p.chunks
      → c ≢ d
      → (c + chunk_bytes p ≤ d) ⊎ (d + chunk_bytes p ≤ c)
  pub total : length p.free_list + length lent ≡ length p.chunks * p.blocks_per_chunk

-- Moving a block between the pool and the client.
Inv-moved :
    (p : FixedSizeMemoryPool) (free lent lent' : List ℕ)
    → Inv p lent
    → ((x : ℕ) → count x free + count x lent' ≡ held x p lent)
    → length free + length lent' ≡ length p.free_list + length lent
    → Inv (record p { free_list = free }) lent'
unfolding chunk_bytes
Inv-moved p free lent lent' v same long = record {
  wide = v.wide;
  exact = v.exact;
  once = λ x. let h = v.once x in omega (arith, same x);
  placed = λ x h. v.placed x (omega (arith, same x));
  far = v.far;
  total = long ∙ v.total;
}

pub within_chunk : (size k n : ℕ) → k < n → k * size + size ≤ size * n
within_chunk size k n h = grind arith

one_more : (c n : ℕ) → (c + 1) * n ≡ n + c * n
one_more c n = grind arith

module _ (p : FixedSizeMemoryPool) (lent : List ℕ) (v : Inv p lent) (page : ℕ)
    (new : Fresh page p) where
  -- A block of the new chunk is held by nobody yet.
  fresh_block : (x k : ℕ) → k < p.blocks_per_chunk → x ≡ page + k * p.block_size → held x p lent ≡ 0
  unfolding Fresh
  fresh_block x k l e = elim (dec_lt 0 (held x p lent)) [
    | yes h ↦
        let (c, j, there, m, d) = v.placed x h in
        let room = within_chunk p.block_size k p.blocks_per_chunk l in
        let room' = within_chunk p.block_size j p.blocks_per_chunk m in
        let wide = v.wide in
        let exact = v.exact in
        elim (new c there) [
          | inl a ↦ let bad : 1 ≤ 0 = omega arith in elim bad [ ]
          | inr a ↦ let bad : 1 ≤ 0 = omega arith in elim bad [ ]
        ]
    | no n ↦ omega arith
  ]

  chunk_cases : (c : ℕ) → 1 ≤ count c (p.chunks ++ page ∷ []) → (1 ≤ count c p.chunks) ⊎ (c ≡ page)
  unfolding count
  chunk_cases c h = elim (ℕ_discrete c page) [
    | yes e ↦ inr e
    | no n ↦
        let split = count-append c p.chunks (page ∷ []) in
        let other = ==_ne c page n in inl (ground arith)
  ]

  chunk_first : (c : ℕ) → 1 ≤ count c p.chunks → 1 ≤ count c (p.chunks ++ page ∷ [])
  chunk_first c h = let split = count-append c p.chunks (page ∷ []) in omega arith

  chunk_last : 1 ≤ count page (p.chunks ++ page ∷ [])
  unfolding count
  chunk_last =
      let split = count-append page p.chunks (page ∷ []) in let here = ==_refl page in ground arith

  added :
      (x : ℕ)
      → count x p.free_list
        < count x (push_blocks page p.block_size 0 p.blocks_per_chunk p.free_list)
      → (k : ℕ) × (k < p.blocks_per_chunk) × (x ≡ page + k * p.block_size)
  added x l =
      let (k, r, e) = push_blocks-placed x page p.block_size 0 p.blocks_per_chunk p.free_list l in
      (k, omega arith, e)

  expand-Inv : Inv (expand page p) lent
  unfolding expand Fresh chunk_bytes
  expand-Inv = record {
    wide = v.wide;
    exact = v.exact;
    once = λ x.
        elim (dec_lt (count x p.free_list)
          (count x (push_blocks page p.block_size 0 p.blocks_per_chunk p.free_list))) [
            | yes l ↦
                let (k, r, e) = added x l in
                let none_yet = fresh_block x k r e in
                let bound =
                  count-push_blocks_bound x page p.block_size 0 p.blocks_per_chunk p.free_list
                    v.wide in
                omega arith
            | no n ↦ let old = v.once x in omega arith
          ];
    placed = λ x h.
        elim (dec_lt (count x p.free_list)
          (count x (push_blocks page p.block_size 0 p.blocks_per_chunk p.free_list))) [
            | yes l ↦ let (k, r, e) = added x l in (page, k, chunk_last, r, e)
            | no n ↦
                let (c, k, there, r, e) = v.placed x (omega arith) in
                (c, k, chunk_first c there, r, e)
          ];
    far = λ c d h k n. elim (chunk_cases c h) [
      | inl a ↦ elim (chunk_cases d k) [
        | inl b ↦ v.far c d a b n
        | inr b ↦ elim (new c a) [ inl x ↦ inl (omega arith) | inr x ↦ inr (omega arith) ]
      ]
      | inr a ↦ elim (chunk_cases d k) [
        | inl b ↦ elim (new d b) [ inl x ↦ inr (omega arith) | inr x ↦ inl (omega arith) ]
        | inr b ↦ absurd (n (a ∙ sym b))
      ]
    ];
    total =
        let grown = length-push_blocks page p.block_size 0 p.blocks_per_chunk p.free_list in
        let product = one_more (length p.chunks) p.blocks_per_chunk in
        let old = v.total in
        let sum : length (push_blocks page p.block_size 0 p.blocks_per_chunk p.free_list)
              + length lent
            ≡ (length p.chunks + 1) * p.blocks_per_chunk =
          omega arith in
        sum ∙ ap (λ c. c * p.blocks_per_chunk) (sym (length-append p.chunks (page ∷ [])));
  }

-- What `Pop` may give, seen from the client.
abbrev Popped : FixedSizeMemoryPool → List ℕ → Option ℕ × FixedSizeMemoryPool → Type 0
Popped p lent (none, q) = (q ≡ p) × (p.free_list ≡ [])
Popped p lent (some b, q) = Inv q (b ∷ lent)

pop_from-Popped :
    (p : FixedSizeMemoryPool) (lent free : List ℕ)
    → Inv p lent
    → p.free_list ≡ free
    → Popped p lent (pop_from free p)
unfolding pop_from count
pop_from-Popped p lent [] v e = (refl, e)
pop_from-Popped p lent (b ∷ free) v e =
    Inv-moved p free lent (b ∷ lent) v (λ x. let here = ap (count x) e in omega arith)
      (let here = ap length e in omega arith)

-- A client that is handed a block holds it once.
pub allocate-Inv :
    (p q : FixedSizeMemoryPool) (lent : List ℕ) (page b : ℕ)
    → Inv p lent
    → Fresh page p
    → allocate page p ≡ (some b, q)
    → Inv q (b ∷ lent)
unfolding allocate or_expand pop
allocate-Inv p q lent page b v new e = go (pop p) (pop_from-Popped p lent p.free_list v refl) e
  where
    go :
        (r : Option ℕ × FixedSizeMemoryPool)
        → Popped p lent r
        → or_expand page r ≡ (some b, q)
        → Inv q (b ∷ lent)
    go (some c, r) held d = subst (Popped p lent) {x = (some c, r)} {y = (some b, q)} d held
    go (none, r) (same, _) d =
        subst (Popped (expand page p) lent) {y = (some b, q)}
          (ap (λ (t : FixedSizeMemoryPool). pop (expand page t)) (sym same) ∙ d)
          (pop_from-Popped (expand page p) lent (expand page p).free_list
            (expand-Inv p lent v page new) refl)

pub deallocate-Inv :
    (p : FixedSizeMemoryPool) (lent : List ℕ) (b : ℕ)
    → Inv p lent
    → 1 ≤ count b lent
    → Inv (deallocate (some b) p) (take_out b lent)
unfolding deallocate count
deallocate-Inv p lent b v h =
    Inv-moved p (b ∷ p.free_list) lent (take_out b lent) v
      (λ x. let out = count-take_out b x lent h in omega arith)
      (let out = length-take_out b lent h in omega arith)

-- A new pool whose chunks have a length below 2^64.
pub create-Inv :
    (block_size blocks_per_chunk : ℕ)
    → max block_size 8 * blocks_per_chunk < 2 ^ 64
    → Inv (create block_size blocks_per_chunk) []
unfolding create count chunk_bytes
create-Inv block_size n small = record {
  wide = ground arith;
  exact = small_mod (max block_size 8 * n) small;
  once = λ x. omega arith;
  placed = λ x (h : 1 ≤ 0 + 0). let bad : 1 ≤ 0 = omega arith in elim bad [ ];
  far = λ c d (h : 1 ≤ 0) k n. elim h [ ];
  total = omega arith;
}
  where
    small_mod : (a : ℕ) → a < 2 ^ 64 → a % 2 ^ 64 ≡ a
    small_mod a h = omega arith

pub Reach-Inv :
    (block_size blocks_per_chunk : ℕ) (u : Use)
    → max block_size 8 * blocks_per_chunk < 2 ^ 64
    → Reach block_size blocks_per_chunk u
    → Inv u.pool u.lent
Reach-Inv block_size n u small start = create-Inv block_size n small
Reach-Inv block_size n u small (allocates {p} {q} {lent} page b r new e) =
    allocate-Inv p q lent page b (Reach-Inv block_size n (record { pool = p; lent = lent }) small r)
      new e
Reach-Inv block_size n u small (deallocates {p} {lent} b r h) =
    deallocate-Inv p lent b (Reach-Inv block_size n (record { pool = p; lent = lent }) small r) h
