-- ===== src/Memory/Pools/TlsCache/Tests.antt =====
-- `TlsCache` at concrete inputs.
use scicompute.Base.{
  ℕ, ◌+◌, ◌*◌, ◌≤◌, ◌≡◌, refl, sym, ap, ◌∙◌, some_inj, ◌==◌, some, none, List, [], ◌∷◌,
  if◌then◌else◌, length, drop, arith,
}
use scicompute.Base.Sets.{count, take_out, count-take_out}
use scicompute.Memory.Pools.TlsCache.{Backend, TlsCache, get, refill, destroy, start, gets}
use scicompute.Memory.Pools.TlsCache.Conserving.{Laws, cache_conserves}

-- An allocator whose state lists what it has lent: it gives the address 16 times the number of
-- blocks lent.
abbrev counter : Backend (List ℕ)
counter = record { alloc = λ s. (some (16 * length s), 16 * length s ∷ s); free = take_out }

counter-Laws : Laws counter
unfolding count
counter-Laws = record {
  lent = λ s x. count x s;
  alloc_none = λ s t e x. cc;
  alloc_some = λ s t p e x.
      sym (ap (λ r. count x r.1) e)
      ∙ ap (λ (y : ℕ). (if x == y then 1 else 0) + count x s) (some_inj (ap (λ r. r.0) e));
  free_lent = λ s p x h. let out = count-take_out p x s h in omega arith;
}

-- An allocator that has nothing left.
abbrev spent : Backend (List ℕ)
spent = record { alloc = λ s. (none, s); free = take_out }

abbrev empty : TlsCache (List ℕ)
empty = record { cache = []; backing = [] }

-- The first `Get` fills the cache with sixteen blocks and takes the last of them.
abbrev filled_once : TlsCache (List ℕ)
unfolding refill
filled_once =
    let full = refill counter 16 [] [] in
    record { cache = drop 1 full.cache; backing = full.backing }

first : get counter empty ≡ some (240, filled_once)
unfolding get refill
first = refl

cache_conserves_example :
    (length filled_once.cache ≤ 16)
    × ((x : ℕ)
        → count x filled_once.cache + (count x (240 ∷ []) + counter-Laws.lent [] x)
          ≡ counter-Laws.lent filled_once.backing x)
    × ((x : ℕ)
        → count x (240 ∷ []) + counter-Laws.lent [] x
          ≡ counter-Laws.lent (destroy counter filled_once) x)
cache_conserves_example =
    cache_conserves counter counter-Laws [] filled_once (240 ∷ []) (gets 240 start first)
