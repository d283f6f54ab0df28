-- ===== src/Memory/Allocator/Tests.antt =====
-- `HostAllocator` at concrete inputs.
use scicompute.Base.{ℕ, ◌+◌, ◌%◌, ◌^◌, ◌≤◌, ◌≡◌, refl, some, none, [], ◌∷◌, arith, subst, some_inj}
use scicompute.Base.Assoc.{find, erase, put}
use scicompute.Memory.Allocator.{
  HostAllocator, fresh, allocate, deallocate, clear, Reach, start, allocates, deallocates,
}
use scicompute.Memory.Allocator.Accounting.{tracked_bytes, tracked_blocks, stats_account}

-- Two blocks, at 8 and 16, of which the first has been given back.
abbrev used : HostAllocator
unfolding fresh allocate deallocate
used = (deallocate (some 8) (allocate 32 (some 16) (allocate 64 (some 8) fresh).1).1).1

used-Reach : Reach 96 used
unfolding fresh allocate deallocate find put erase
used-Reach = deallocates (some 8) (
    allocates 32 (some 16) (allocates 64 (some 8) start (λ ptr e. refl))
      (λ ptr e. subst (λ i. find {B = ℕ} i ((8, 64) ∷ []) ≡ none) (some_inj e) refl))

stats_account_example :
    (used.stats.current_bytes ≡ tracked_bytes used)
    × (used.stats.current_bytes ≤ used.stats.peak_bytes)
    × (used.stats.peak_bytes ≤ used.stats.total_bytes)
    × (used.stats.num_allocations ≡ (used.stats.num_deallocations + tracked_blocks used) % 2 ^ 64)
stats_account_example = stats_account 96 used used-Reach (omega arith)

-- `clear` forgets the blocks and keeps the statistics, so that a block given back after it stays in
-- `current_bytes` for ever.
clear_keeps_bytes :
    (deallocate (some 8) (clear (allocate 64 (some 8) fresh).1)).1.stats.current_bytes ≡ 64
unfolding fresh allocate deallocate find put erase clear
clear_keeps_bytes = refl
