-- ===== src/Memory/Pools/TlsCache/Conserving.antt =====
-- What goes through a `TlsCache`.
use scicompute.Base.{
  ℕ, zero, suc, ◌+◌, ◌≤◌, ◌<◌, ◌≡◌, ◌↔◌, inl, inr, Option, some, none, List, [], ◌∷◌, leb, ◌==◌,
  if◌then◌else◌, length, arith, refl, sym, ap, subst, ◌∙◌, Bool-cases, if_true, if_false, some_inj,
}
use scicompute.Base.Sets.{count, take_out, count-take_out}
use scicompute.Memory.Pools.TlsCache.{
  batch_size, Backend, TlsCache, push_or_break, refill, filled, take_back, get, flush, put, destroy,
  Reach, start, gets, puts,
}

-- What a cache relies on: `lent s x` is how often the allocator has the block x given away, and
-- `alloc` and `free` count it so.
pub record Laws {ℓ} {S : Type ℓ} (b : Backend S) : Type ℓ where
  pub lent : S → ℕ → ℕ
  pub alloc_none : (s t : S) → b.alloc s ≡ (none, t) → (x : ℕ) → lent t x ≡ lent s x
  pub alloc_some :
      (s t : S) (p : ℕ)
      → b.alloc s ≡ (some p, t)
      → (x : ℕ) → lent t x ≡ (if x == p then 1 else 0) + lent s x
  pub free_lent :
      (s : S) (p x : ℕ) → 1 ≤ lent s p → (if x == p then 1 else 0) + lent (b.free p s) x ≡ lent s x

module _ {ℓ} {S : Type ℓ} (b : Backend S) (laws : Laws b) where
  -- The blocks lent out are those in the cache and n x others of each x.
  Owes : (ℕ → ℕ) → TlsCache S → Type 0
  Owes n c = (x : ℕ) → count x c.cache + n x ≡ laws.lent c.backing x

  refill-Owes :
      (n : ℕ → ℕ) (k : ℕ) (cache : List ℕ) (s : S)
      → Owes n (record { cache = cache; backing = s })
      → Owes n (refill b k cache s)
  unfolding refill Owes count
  refill-Owes n zero cache s o = o
  refill-Owes n (suc k) cache s o =
      by_block (b.alloc s) refl (λ p t h. refill-Owes n k (p ∷ cache) t h)
    where
      by_block :
          (r : Option ℕ × S)
          → b.alloc s ≡ r
          → ((p : ℕ) (t : S)
              → Owes n (record { cache = p ∷ cache; backing = t })
              → Owes n (refill b k (p ∷ cache) t))
          → Owes n (push_or_break r cache (refill b k))
      by_block (none, t) e next = λ x. o x ∙ sym (laws.alloc_none s t e x)
      by_block (some p, t) e next =
          next p t (λ x. let old = o x in let new = laws.alloc_some s t p e x in omega arith)

  length-refill :
      (k : ℕ) (cache : List ℕ) (s : S) → length (refill b k cache s).cache ≤ k + length cache
  unfolding refill
  length-refill zero cache s = omega arith
  length-refill (suc k) cache s = by_block (b.alloc s) (λ p t. length-refill k (p ∷ cache) t)
    where
      by_block :
          (r : Option ℕ × S)
          → ((p : ℕ) (t : S) → length (refill b k (p ∷ cache) t).cache ≤ k + length (p ∷ cache))
          → length (push_or_break r cache (refill b k)).cache ≤ suc k + length cache
      by_block (none, t) next = omega arith
      by_block (some p, t) next = let h = next p t in omega arith

  filled-Owes :
      (n : ℕ → ℕ) (cache : List ℕ) (s : S)
      → Owes n (record { cache = cache; backing = s })
      → Owes n (filled b cache s)
  unfolding filled
  filled-Owes n [] s o = refill-Owes n batch_size [] s o
  filled-Owes n (p ∷ ps) s o = o

  length-filled :
      (cache : List ℕ) (s : S) → length cache ≤ 16 → length (filled b cache s).cache ≤ 16
  unfolding filled
  length-filled [] s h = let l = length-refill batch_size [] s in omega arith
  length-filled (p ∷ ps) s h = h

  -- Every block that is freed was lent, and one time less afterwards.
  flush-Owes :
      (n : ℕ → ℕ) (cache : List ℕ) (s : S)
      → Owes n (record { cache = cache; backing = s })
      → (x : ℕ) → n x ≡ laws.lent (flush b cache s) x
  unfolding flush Owes count
  flush-Owes n [] s o x = let h = o x in omega arith
  flush-Owes n (p ∷ ps) s o x =
      let rest =
        flush-Owes (λ y. (if y == p then 1 else 0) + n y) ps s (λ y. let h = o y in omega arith) in
      let here = rest p in
      let there = rest x in
      let freed = laws.free_lent (flush b ps s) p x (ground arith) in omega arith

  take_back-Owes :
      (n : ℕ → ℕ) (cache : List ℕ) (s : S) (p : ℕ) (d : TlsCache S)
      → Owes n (record { cache = cache; backing = s })
      → take_back cache s ≡ some (p, d)
      → Owes (λ x. (if x == p then 1 else 0) + n x) d × (suc (length d.cache) ≡ length cache)
  unfolding take_back Owes count
  take_back-Owes n [] s p d o e = cc
  take_back-Owes n (q ∷ qs) s p d o e =
      let same = some_inj e in
      let block : q ≡ p = ap (λ r. r.0) same in
      (
        subst (λ (t : TlsCache S). Owes (λ x. (if x == p then 1 else 0) + n x) t)
            (ap (λ r. r.1) same) (λ x. moved x (n x) (laws.lent s x) block (o x)),
        ap (λ r. suc (length r.1.cache)) (sym same),
      )
    where
      moved :
          (x k l : ℕ)
          → q ≡ p
          → (if x == q then 1 else 0) + count x qs + k ≡ l
          → count x qs + ((if x == p then 1 else 0) + k) ≡ l
      moved x k l h e =
          subst (λ (y : ℕ). count x qs + ((if x == y then 1 else 0) + k) ≡ l) h (omega arith)

  put-Owes :
      (n m : ℕ → ℕ) (p : ℕ) (c : TlsCache S)
      → Owes n c
      → ((x : ℕ) → (if x == p then 1 else 0) + m x ≡ n x)
      → length c.cache ≤ 16
      → Owes m (put b p c) × (length (put b p c).cache ≤ 16)
  unfolding put Owes count
  put-Owes n m p c o less h = elim (Bool-cases (leb batch_size (length c.cache))) [
    | inl full ↦
        let flushed : put b p c ≡ record { cache = p ∷ []; backing = flush b c.cache c.backing } =
          if_true _ _ full in
        (
          λ x.
              let there = flush-Owes n c.cache c.backing o x in
              let here = less x in
              subst (λ (t : TlsCache S). count x t.cache + m x ≡ laws.lent t.backing x)
                (sym flushed) (omega arith),
          omega (arith, ap (λ (t : TlsCache S). length t.cache) flushed),
        )
    | inr room ↦
        let pushed : put b p c ≡ record { cache = p ∷ c.cache; backing = c.backing } =
          if_false _ _ room in
        (
          λ x.
              let there = o x in
              let here = less x in
              subst (λ (t : TlsCache S). count x t.cache + m x ≡ laws.lent t.backing x) (sym pushed)
                (omega arith),
          let small : length c.cache < 16 = ground arith in
              omega (arith, ap (λ (t : TlsCache S). length t.cache) pushed),
        )
  ]

  Reach-Owes :
      (s : S) (c : TlsCache S) (held : List ℕ)
      → Reach b s c held
      → Owes (λ x. count x held + laws.lent s x) c × (length c.cache ≤ 16)
  unfolding Owes count get
  Reach-Owes s c held start = (λ x. omega arith, omega arith)
  Reach-Owes s d (_ ∷ held) (gets {c} p r e) =
      let (o, l) = Reach-Owes s c held r in
      let full = filled-Owes (λ x. count x held + laws.lent s x) c.cache c.backing o in
      let (o', l') =
        take_back-Owes (λ x. count x held + laws.lent s x) (filled b c.cache c.backing).cache
          (filled b c.cache c.backing).backing p d full e in
      let short = length-filled c.cache c.backing l in
      (λ x. let h = o' x in omega arith, omega arith)
  Reach-Owes s d left (puts {c} {held} p r h) =
      let (o, l) = Reach-Owes s c held r in
      put-Owes (λ x. count x held + laws.lent s x) (λ x. count x (take_out p held) + laws.lent s x)
        p c o (λ x. let out = count-take_out p x held h in omega arith) l

-- A cache built on an allocator that counts its blocks never has more than 16 of them; whatever its
-- thread got and put back, the blocks that the allocator has lent since the start are those in the
-- cache and those that the thread holds; and after the destructor they are those that the thread
-- holds.
pub cache_conserves {ℓ} :
    {S : Type ℓ} (b : Backend S) (laws : Laws b) (s : S) (c : TlsCache S) (held : List ℕ)
    → Reach b s c held
    → (length c.cache ≤ 16)
      × ((x : ℕ) → count x c.cache + (count x held + laws.lent s x) ≡ laws.lent c.backing x)
      × ((x : ℕ) → count x held + laws.lent s x ≡ laws.lent (destroy b c) x)
unfolding Owes destroy
cache_conserves b laws s c held r =
    let (o, l) = Reach-Owes b laws s c held r in
    (l, o, flush-Owes b laws (λ x. count x held + laws.lent s x) c.cache c.backing o)

module _ {ℓ} {S : Type ℓ} (b : Backend S) where
  refill-grows : (k : ℕ) (cache : List ℕ) (s : S) → length cache ≤ length (refill b k cache s).cache
  unfolding refill
  refill-grows zero cache s = omega arith
  refill-grows (suc k) cache s = by_block (b.alloc s) (λ p t. refill-grows k (p ∷ cache) t)
    where
      by_block :
          (r : Option ℕ × S)
          → ((p : ℕ) (t : S) → suc (length cache) ≤ length (refill b k (p ∷ cache) t).cache)
          → length cache ≤ length (push_or_break r cache (refill b k)).cache
      by_block (none, t) next = omega arith
      by_block (some p, t) next = let h = next p t in omega arith

  take_back-defined : (cache : List ℕ) (s : S) → 1 ≤ length cache → take_back cache s ≡ none → ⊥
  unfolding take_back
  take_back-defined [] s h e = elim h [ ]
  take_back-defined (p ∷ ps) s h e = cc

-- `Get` takes the back of an empty vector exactly when the cache is empty and the allocator gives a
-- null pointer.
get_undefined {ℓ} :
    {S : Type ℓ} (b : Backend S) (c : TlsCache S)
    → (get b c ≡ none) ↔ ((c.cache ≡ []) × ((b.alloc c.backing).0 ≡ none))
unfolding get filled refill take_back
get_undefined {S = S} b c = (forth c.cache refl, back)
  where
    got : TlsCache S → Option (ℕ × TlsCache S)
    got full = take_back full.cache full.backing

    by_alloc :
        (r : Option ℕ × S)
        → b.alloc c.backing ≡ r
        → got (push_or_break r [] (refill b 15)) ≡ none
        → (b.alloc c.backing).0 ≡ none
    by_alloc (none, t) a g = ap (λ r. r.0) a
    by_alloc (some p, t) a g = absurd (
        take_back-defined b (refill b 15 (p ∷ []) t).cache (refill b 15 (p ∷ []) t).backing
          (refill-grows b 15 (p ∷ []) t) g)

    forth :
        (cache : List ℕ)
        → c.cache ≡ cache
        → get b c ≡ none
        → (c.cache ≡ []) × ((b.alloc c.backing).0 ≡ none)
    forth [] e g =
        (e, by_alloc (b.alloc c.backing) refl (sym (ap (λ l. got (filled b l c.backing)) e) ∙ g))
    forth (p ∷ ps) e g = cc (sym (ap (λ l. got (filled b l c.backing)) e) ∙ g)

    by_none : (r : Option ℕ × S) → r.0 ≡ none → got (push_or_break r [] (refill b 15)) ≡ none
    by_none (none, t) h = refl
    by_none (some p, t) h = cc

    back : (c.cache ≡ []) × ((b.alloc c.backing).0 ≡ none) → get b c ≡ none
    back (e, a) = ap (λ l. got (filled b l c.backing)) e ∙ by_none (b.alloc c.backing) a
