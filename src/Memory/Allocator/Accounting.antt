-- ===== src/Memory/Allocator/Accounting.antt =====
-- The statistics of `HostAllocator` account for the blocks that it tracks.
use scicompute.Base.{
  ℕ, ◌+◌, ◌%◌, ◌^◌, ◌≤◌, ◌<◌, ◌≡◌, some, none, ap, refl, ◌∙◌, length, arith, ==_ne, ℕ_discrete,
  Option-cases, inl, inr,
}
use scicompute.Base.Assoc.{
  find, put, erase, Distinct, Distinct-erase, total, total-erase, erase-absent, find-erase_same,
  find-put_same, erase-put,
}
use scicompute.Memory.Allocator.{
  HostAllocator, fresh, allocate, deallocate, Reach, start, allocates, deallocates,
  count_allocation, count_deallocation,
}

abbrev size : ℕ → ℕ
size n = n

-- The bytes and the number of the blocks that are tracked.
unfoldable pub tracked_bytes : HostAllocator → ℕ
unfolding total
tracked_bytes a = total size a.allocation_map

unfoldable pub tracked_blocks : HostAllocator → ℕ
tracked_blocks a = length a.allocation_map

record Good (asked : ℕ) (a : HostAllocator) : Type 0 where
  distinct : Distinct a.allocation_map
  current : a.stats.current_bytes ≡ tracked_bytes a
  peak : a.stats.current_bytes ≤ a.stats.peak_bytes
  high : a.stats.peak_bytes ≤ a.stats.total_bytes
  bound : a.stats.total_bytes ≤ asked
  counts : a.stats.num_allocations ≡ (a.stats.num_deallocations + tracked_blocks a) % 2 ^ 64

Good-more : (asked bytes : ℕ) (a : HostAllocator) → Good asked a → Good (asked + bytes) a
Good-more asked bytes a g = record {
  distinct = g.distinct;
  current = g.current;
  peak = g.peak;
  high = g.high;
  bound = omega (arith, g.bound);
  counts = g.counts;
}

Good-track :
    (asked bytes ptr : ℕ) (a : HostAllocator)
    → Good asked a
    → find ptr a.allocation_map ≡ none
    → asked + bytes < 2 ^ 64
    → Good (asked + bytes) (record {
      allocation_map = put ptr bytes a.allocation_map;
      stats = count_allocation bytes a.stats;
    })
unfolding put Distinct count_allocation total tracked_bytes tracked_blocks
Good-track asked bytes ptr a g new small =
    let same = erase-absent ptr a.allocation_map new in
    record {
      distinct =
          (find-erase_same ptr a.allocation_map, Distinct-erase ptr a.allocation_map g.distinct);
      current = omega (arith, g.current, ap (total size) same, g.peak, g.high, g.bound);
      peak = omega (arith, g.peak, g.high, g.bound);
      high = omega (arith, g.peak, g.high, g.bound);
      bound = omega (arith, g.peak, g.high, g.bound);
      counts = omega (arith, g.counts, ap (λ m. length m) same);
    }

Good-untrack :
    (asked bytes ptr : ℕ) (a : HostAllocator)
    → Good asked a
    → find ptr a.allocation_map ≡ some bytes
    → asked < 2 ^ 64
    → Good asked (record {
      allocation_map = erase ptr a.allocation_map;
      stats = count_deallocation bytes a.stats;
    })
unfolding count_deallocation tracked_bytes tracked_blocks
Good-untrack asked bytes ptr a g old small =
    let t = total-erase size ptr bytes a.allocation_map g.distinct old in
    record {
      distinct = Distinct-erase ptr a.allocation_map g.distinct;
      current = omega (arith, g.current, t.0, g.peak, g.high, g.bound);
      peak = omega (arith, g.peak, t.0, g.current, g.high, g.bound);
      high = g.high;
      bound = g.bound;
      counts = omega (arith, g.counts, t.1);
    }

Reach-Good : {asked : ℕ} {a : HostAllocator} → Reach asked a → asked < 2 ^ 64 → Good asked a
unfolding fresh Distinct tracked_bytes tracked_blocks allocate deallocate
Reach-Good start small = record {
  distinct = tt;
  current = refl;
  peak = omega arith;
  high = omega arith;
  bound = omega arith;
  counts = refl;
}
Reach-Good (allocates {asked} {a} bytes given r new) small =
    let g = Reach-Good r (omega arith) in
    elim (ℕ_discrete bytes 0) [
      | yes z ↦ rw (z) (Good-more asked 0 a g)
      | no nz ↦ rw (==_ne bytes 0 nz) (elim (Option-cases given) [
        | inl e ↦ rw e (Good-more asked bytes a g)
        | inr (ptr, e) ↦ rw e (Good-track asked bytes ptr a g (new ptr e) small)
      ])
    ]
Reach-Good (deallocates none r) small = Reach-Good r small
Reach-Good (deallocates {asked} {a} (some ptr) r) small =
    let g = Reach-Good r small in
    elim (Option-cases (find ptr a.allocation_map)) [
      | inl e ↦ rw e g
      | inr (bytes, e) ↦ rw e (Good-untrack asked bytes ptr a g e small)
    ]

-- After any calls but `clear` that have asked for fewer than 2^64 bytes in all, `current_bytes` is
-- the sum of the sizes of the blocks still tracked, it is at most `peak_bytes`, which is at most
-- `total_bytes`, and the allocations counted are the deallocations counted and the blocks still
-- tracked, modulo 2^64.
pub stats_account :
    (asked : ℕ) (a : HostAllocator)
    → Reach asked a
    → asked < 2 ^ 64
    → (a.stats.current_bytes ≡ tracked_bytes a)
      × (a.stats.current_bytes ≤ a.stats.peak_bytes)
      × (a.stats.peak_bytes ≤ a.stats.total_bytes)
      × (a.stats.num_allocations ≡ (a.stats.num_deallocations + tracked_blocks a) % 2 ^ 64)
stats_account asked a r small = let g = Reach-Good r small in (g.current, g.peak, g.high, g.counts)

-- Giving back a block of `bytes` > 0 that was just allocated, and was not tracked before, restores
-- the blocks tracked and the `current_bytes`, when the bytes stay below 2^64.
deallocate-allocate :
    (bytes ptr : ℕ) (a : HostAllocator)
    → 0 < bytes
    → find ptr a.allocation_map ≡ none
    → a.stats.current_bytes + bytes < 2 ^ 64
    → ((allocate bytes (some ptr) a).0 ≡ some ptr)
      × ((deallocate (some ptr) (allocate bytes (some ptr) a).1).1.allocation_map
          ≡ a.allocation_map)
      × ((deallocate (some ptr) (allocate bytes (some ptr) a).1).1.stats.current_bytes
          ≡ a.stats.current_bytes)
unfolding allocate deallocate count_allocation count_deallocation
deallocate-allocate bytes ptr a h new small =
    let nz = ==_ne bytes 0 (omega arith) in
    let back : erase ptr (put ptr bytes a.allocation_map) ≡ a.allocation_map =
      erase-put ptr bytes a.allocation_map ∙ erase-absent ptr a.allocation_map new in
    rw nz (rw (find-put_same ptr bytes a.allocation_map) (refl, back, omega arith))
