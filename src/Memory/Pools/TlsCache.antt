-- ===== src/Memory/Pools/TlsCache.antt =====
-- `TlsCache` of include/memory/memory_pool.hpp. The vector is a list with its back first, and
-- `alloc_` and `free_` act on a state S of their own.
pub mod Conserving
mod Tests
use scicompute.Base.{
  ℕ, zero, suc, ◌≤◌, ◌≡◌, Option, some, none, List, [], ◌∷◌, leb, if◌then◌else◌, length,
}
use scicompute.Base.Sets.{count, take_out}

abbrev pub batch_size : ℕ
batch_size = 16

-- The functions that a cache is built with.
pub record Backend {ℓ} (S : Type ℓ) : Type ℓ where
  pub alloc : S → Option ℕ × S
  pub free : ℕ → S → S

pub record TlsCache {ℓ} (S : Type ℓ) : Type ℓ where
  pub cache : List ℕ
  pub backing : S

module _ {ℓ} {S : Type ℓ} where
  -- A round of `Refill`: a null pointer ends the loop.
  abbrev pub push_or_break : Option ℕ × S → List ℕ → (List ℕ → S → TlsCache S) → TlsCache S
  push_or_break (none, s) cache next = record { cache = cache; backing = s }
  push_or_break (some p, s) cache next = next (p ∷ cache) s

  -- The loop of `Refill`, with `n` rounds to go.
  pub refill : Backend S → ℕ → List ℕ → S → TlsCache S
  refill b zero cache s = record { cache = cache; backing = s }
  refill b (suc n) cache s = push_or_break (b.alloc s) cache (refill b n)

  -- `if (cache_.empty()) Refill();`
  pub filled : Backend S → List ℕ → S → TlsCache S
  unfolding refill
  filled b [] s = refill b batch_size [] s
  filled b (p ∷ ps) s = record { cache = p ∷ ps; backing = s }

  -- `back` and `pop_back`; `none` is the undefined behaviour on an empty vector.
  pub take_back : List ℕ → S → Option (ℕ × TlsCache S)
  take_back [] s = none
  take_back (p ∷ ps) s = some (p, record { cache = ps; backing = s })

  pub get : Backend S → TlsCache S → Option (ℕ × TlsCache S)
  unfolding filled take_back
  get b c = let full = filled b c.cache c.backing in take_back full.cache full.backing

  -- The loop of `Flush`, from the front of the vector.
  pub flush : Backend S → List ℕ → S → S
  flush b [] s = s
  flush b (p ∷ ps) s = b.free p (flush b ps s)

  pub put : Backend S → ℕ → TlsCache S → TlsCache S
  unfolding flush
  put b p c =
      if leb batch_size (length c.cache)
      then record { cache = p ∷ []; backing = flush b c.cache c.backing }
      else record { cache = p ∷ c.cache; backing = c.backing }

  pub cache_size : TlsCache S → ℕ
  cache_size c = length c.cache

  -- What the destructor leaves behind.
  pub destroy : Backend S → TlsCache S → S
  unfolding flush
  destroy b c = flush b c.cache c.backing

  -- A cache and the blocks that its thread holds; the thread puts back what it holds.
  pub data Reach (b : Backend S) (s : S) : TlsCache S → List ℕ → Type ℓ where
    start : Reach b s (record { cache = []; backing = s }) []
    gets :
        {c d : TlsCache S} {held : List ℕ} (p : ℕ)
        → Reach b s c held
        → get b c ≡ some (p, d)
        → Reach b s d (p ∷ held)
    puts :
        {c : TlsCache S} {held : List ℕ} (p : ℕ)
        → Reach b s c held
        → 1 ≤ count p held
        → Reach b s (put b p c) (take_out p held)
