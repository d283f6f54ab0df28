-- ===== src/Memory/Allocator.antt =====
-- `HostAllocator` of src/memory/allocator.cpp, one call at a time under its mutex. What
-- `posix_memalign` gives is an argument: a block, or `none` when it fails.
mod Tests
pub mod Accounting
use scicompute.Base.{
  ℕ, ◌≡◌, Option, some, none, List, [], ◌∷◌, max, add_size, sub_size, ◌==◌, if◌then◌else◌, ◌+◌,
}
use scicompute.Base.Assoc.{find, put, erase}

pub record Stats : Type 0 where
  pub num_allocations : ℕ
  pub num_deallocations : ℕ
  pub current_bytes : ℕ
  pub peak_bytes : ℕ
  pub total_bytes : ℕ

pub record HostAllocator : Type 0 where
  pub allocation_map : List (ℕ × ℕ)
  pub stats : Stats

pub fresh : HostAllocator
fresh = record {
  allocation_map = [];
  stats = record {
    num_allocations = 0;
    num_deallocations = 0;
    current_bytes = 0;
    peak_bytes = 0;
    total_bytes = 0;
  };
}

pub count_allocation : ℕ → Stats → Stats
count_allocation bytes s = record {
  num_allocations = add_size s.num_allocations 1;
  num_deallocations = s.num_deallocations;
  current_bytes = add_size s.current_bytes bytes;
  peak_bytes = max s.peak_bytes (add_size s.current_bytes bytes);
  total_bytes = add_size s.total_bytes bytes;
}

pub count_deallocation : ℕ → Stats → Stats
count_deallocation bytes s = record s {
  num_deallocations = add_size s.num_deallocations 1;
  current_bytes = sub_size s.current_bytes bytes;
}

-- A null pointer is `none`.
pub allocate : ℕ → Option ℕ → HostAllocator → Option ℕ × HostAllocator
unfolding count_allocation
allocate bytes given a = if bytes == 0 then (none, a) else (given, tracked given)
  where
    tracked : Option ℕ → HostAllocator
    tracked none = a
    tracked (some ptr) = record {
      allocation_map = put ptr bytes a.allocation_map;
      stats = count_allocation bytes a.stats;
    }

-- What `deallocate` does with what the map says of a block.
pub untrack : ℕ → Option ℕ → HostAllocator → HostAllocator
unfolding count_deallocation
untrack ptr none a = a
untrack ptr (some bytes) a = record {
  allocation_map = erase ptr a.allocation_map;
  stats = count_deallocation bytes a.stats;
}

-- The block that goes to `free`, tracked or not, and the allocator after it.
pub deallocate : Option ℕ → HostAllocator → Option ℕ × HostAllocator
unfolding untrack
deallocate none a = (none, a)
deallocate (some ptr) a = (some ptr, untrack ptr (find ptr a.allocation_map) a)

pub clear : HostAllocator → HostAllocator
clear a = record a { allocation_map = [] }

-- Calls from a fresh allocator, `clear` apart, that have asked for `asked` bytes in all. The block
-- given is not one that is still tracked.
pub data Reach : ℕ → HostAllocator → Type 0 where
  start : Reach 0 fresh
  allocates :
      {asked : ℕ} {a : HostAllocator} (bytes : ℕ) (given : Option ℕ)
      → Reach asked a
      → ((ptr : ℕ) → given ≡ some ptr → find ptr a.allocation_map ≡ none)
      → Reach (asked + bytes) (allocate bytes given a).1
  deallocates :
      {asked : ℕ} {a : HostAllocator} (ptr : Option ℕ)
      → Reach asked a
      → Reach asked (deallocate ptr a).1
