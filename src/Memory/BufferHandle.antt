-- ===== src/Memory/BufferHandle.antt =====
-- `BufferHandle` of src/memory/buffer_handle.cpp. Blocks and deallocation functions are numbers, a
-- null pointer or an empty function is `none`, and what is deallocated is listed, latest last.
pub mod Ownership
mod Tests
use scicompute.Base.{
  ℕ, ◌≡◌, Bool, true, false, Option, some, none, List, [], ◌∷◌, ◌++◌, get_elem?, set, ◌==◌,
  if◌then◌else◌,
}
use scicompute.Base.Fallible.{◌>>=◌}

-- A call of the deallocation function `0` on the block `1`.
abbrev pub Release : Type 0
Release = ℕ × ℕ

-- `device_type` and `device` are the fields `device_` and `device_ptr_`.
pub record BufferHandle : Type 0 where
  pub data_ptr : Option ℕ
  pub bytes : ℕ
  pub device_type : ℕ
  pub device : Option ℕ
  pub dealloc_fn : Option ℕ
  pub owns_data : Bool

-- `BufferHandle()`, of the device type `kCPU`.
pub empty : BufferHandle
empty = record {
  data_ptr = none;
  bytes = 0;
  device_type = 0;
  device = none;
  dealloc_fn = none;
  owns_data = false;
}

-- `BufferHandle(data, bytes, device, dealloc)`
pub adopt : Option ℕ → ℕ → ℕ → Option ℕ → BufferHandle
adopt ptr bytes device_type dealloc = record {
  data_ptr = ptr;
  bytes = bytes;
  device_type = device_type;
  device = none;
  dealloc_fn = dealloc;
  owns_data = true;
}

-- `BufferHandle(device, bytes)`: the device has the type `device_type` and gives the block `given`,
-- and `dealloc` is the function that gives a block back to it.
pub on_device : (device device_type dealloc : ℕ) → Option ℕ → ℕ → BufferHandle
on_device device device_type dealloc given bytes = record {
  data_ptr = given;
  bytes = bytes;
  device_type = device_type;
  device = some device;
  dealloc_fn = some dealloc;
  owns_data = true;
}

-- `clone`, without the bytes that it copies: `none` is the call of a method on a null device.
pub clone : (device_type dealloc : ℕ → ℕ) → Option ℕ → BufferHandle → Option BufferHandle
unfolding on_device
clone device_type dealloc given h = elim h.device [
  | none ↦ none
  | some d ↦ some (on_device d (device_type d) (dealloc d) given h.bytes)
]

-- What `deallocate` calls: nothing, unless the handle owns a block and has a function for it.
pub releases : Bool → Option ℕ → Option ℕ → List Release
releases false ptr dealloc = []
releases true none dealloc = []
releases true (some ptr) none = []
releases true (some ptr) (some dealloc) = (dealloc, ptr) ∷ []

pub deallocate : BufferHandle → List Release × BufferHandle
deallocate h =
    (releases h.owns_data h.data_ptr h.dealloc_fn, record h { data_ptr = none; owns_data = false })

-- The new handle and the one that was moved from, in which `std::move` leaves the function `left`.
pub move_construct : Option ℕ → BufferHandle → BufferHandle × BufferHandle
move_construct left other =
    (other, record other { data_ptr = none; dealloc_fn = left; owns_data = false })

-- `this = std::move(other)` for two different handles.
pub move_assign :
    Option ℕ → BufferHandle → BufferHandle → List Release × BufferHandle × BufferHandle
unfolding deallocate move_construct
move_assign left this other =
    ((deallocate this).0, (move_construct left other).0, (move_construct left other).1)

pub reset : BufferHandle → List Release × BufferHandle
unfolding deallocate
reset h = deallocate h

-- `reset(data, bytes, device, dealloc)`, which keeps `device_ptr_`.
pub reset_to : Option ℕ → ℕ → ℕ → Option ℕ → BufferHandle → List Release × BufferHandle
unfolding deallocate
reset_to ptr bytes device_type dealloc h = (
  (deallocate h).0,
  record {
    data_ptr = ptr;
    bytes = bytes;
    device_type = device_type;
    device = h.device;
    dealloc_fn = dealloc;
    owns_data = true;
  },
)

-- The handle keeps its pointer and no longer owns the block.
pub detach : BufferHandle → Option ℕ × BufferHandle
detach h = (h.data_ptr, record h { owns_data = false })

-- A statement of a program on its handles, which are numbered in the order of their declaration.
-- `left` is the function that `std::move` leaves behind, which the language does not specify.
pub data Statement : Type 0 where
  declares : Statement
  adopts : (ptr : Option ℕ) (bytes device_type : ℕ) (dealloc : Option ℕ) → Statement
  allocates : (device device_type dealloc : ℕ) (given : Option ℕ) (bytes : ℕ) → Statement
  clones : (device_type dealloc : ℕ → ℕ) (given : Option ℕ) (j : ℕ) → Statement
  declares_from : (left : Option ℕ) (j : ℕ) → Statement
  moves : (left : Option ℕ) (i j : ℕ) → Statement
  resets : (i : ℕ) → Statement
  resets_to : (i : ℕ) (ptr : Option ℕ) (bytes device_type : ℕ) (dealloc : Option ℕ) → Statement
  detaches : (i : ℕ) → Statement
  destroys : (i : ℕ) → Statement

-- `released` are the calls of deallocation functions so far. `acquired` are the releases that the
-- handles were made responsible for, and `detached` those that `detach` took from them.
pub record Program : Type 0 where
  pub handles : List BufferHandle
  pub released : List Release
  pub acquired : List Release
  pub detached : List Release

pub held : BufferHandle → List Release
held h = releases h.owns_data h.data_ptr h.dealloc_fn

-- The function that gives a block back to a device, if there is a device.
pub freed_by : (ℕ → ℕ) → Option ℕ → Option ℕ
freed_by dealloc none = none
freed_by dealloc (some d) = some (dealloc d)

-- `none` stands for a statement on a handle that was not declared, or for `clone` of one without a
-- device, which calls a method on a null pointer.
pub exec : Statement → Program → Option Program
unfolding empty adopt on_device clone freed_by move_construct move_assign reset reset_to detach held
exec declares p = some (record p { handles = p.handles ++ empty ∷ [] })
exec (adopts ptr bytes device_type dealloc) p = some (record p {
  handles = p.handles ++ adopt ptr bytes device_type dealloc ∷ [];
  acquired = p.acquired ++ releases true ptr dealloc;
})
exec (allocates device device_type dealloc given bytes) p = some (record p {
  handles = p.handles ++ on_device device device_type dealloc given bytes ∷ [];
  acquired = p.acquired ++ releases true given (some dealloc);
})
exec (clones device_type dealloc given j) p = get_elem? p.handles j >>= λ other.
    clone device_type dealloc given other >>= λ copy. some (record p {
      handles = p.handles ++ copy ∷ [];
      acquired = p.acquired ++ releases true given (freed_by dealloc other.device);
    })
exec (declares_from left j) p = get_elem? p.handles j >>= λ other. some (record p {
  handles = set p.handles j (move_construct left other).1 ++ (move_construct left other).0 ∷ [];
})
exec (moves left i j) p = get_elem? p.handles i >>= λ this. get_elem? p.handles j >>= λ other.
    if i == j
    then some p
    else some (record p {
      handles =
          set (set p.handles i (move_assign left this other).1) j (move_assign left this other).2;
      released = p.released ++ (move_assign left this other).0;
    })
exec (resets i) p = get_elem? p.handles i >>= λ h.
    some (record p { handles = set p.handles i (reset h).1; released = p.released ++ (reset h).0 })
exec (resets_to i ptr bytes device_type dealloc) p = get_elem? p.handles i >>= λ h. some (record p {
  handles = set p.handles i (reset_to ptr bytes device_type dealloc h).1;
  released = p.released ++ (reset_to ptr bytes device_type dealloc h).0;
  acquired = p.acquired ++ releases true ptr dealloc;
})
exec (detaches i) p = get_elem? p.handles i >>= λ h.
    some (record p { handles = set p.handles i (detach h).1; detached = p.detached ++ held h })
exec (destroys i) p = get_elem? p.handles i >>= λ h. some (record p {
  handles = set p.handles i (deallocate h).1;
  released = p.released ++ (deallocate h).0;
})

pub run : List Statement → Program → Option Program
run [] p = some p
run (s ∷ ss) p = exec s p >>= run ss

pub blank : Program
blank = record { handles = []; released = []; acquired = []; detached = [] }
