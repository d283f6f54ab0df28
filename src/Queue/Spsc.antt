-- ===== src/Queue/Spsc.antt =====
-- `SPSCQueue<T>` of include/bridges/impl/ipc_queue_impl.hpp, called from one thread at a time.
-- `none` is undefined behaviour: a remainder by zero, or an access outside `buffer_`.
pub mod Holds
pub mod Fifo
pub mod Threads
mod Tests
use scicompute.Base.{
  ℕ, ◌+◌, ◌-◌, ◌%◌, ◌^◌, Bool, true, false, Option, none, some, List, add_size, sub_size, ltb, leb,
  ◌==◌, if◌then◌else◌, length, get_elem?, set, replicate,
}
use scicompute.Base.Fallible.{◌>>=◌}

-- `buffer_` is `none` for a null pointer.
pub record Spsc {ℓ} (A : Type ℓ) : Type ℓ where
  pub buffer : Option (List A)
  pub capacity : ℕ
  pub read_idx : ℕ
  pub write_idx : ℕ

module _ {ℓ} {A : Type ℓ} where
  -- The default constructor.
  pub fresh : Spsc A
  fresh = record { buffer = none; capacity = 0; read_idx = 0; write_idx = 0 }

  pub destroy : Spsc A → Spsc A
  destroy q = record q { buffer = none; capacity = 0 }

  -- `blank` is the value that `new T[capacity]` leaves in each slot.
  pub init : A → ℕ → Spsc A → Bool × Spsc A
  unfolding destroy
  init blank n q = if n == 0 then (false, destroy q) else (
    true,
    record { buffer = some (replicate n blank); capacity = n; read_idx = 0; write_idx = 0 },
  )

  -- `(i + 1) % capacity_`
  pub next_idx : Spsc A → ℕ → Option ℕ
  next_idx q i = if q.capacity == 0 then none else some (add_size i 1 % q.capacity)

  -- `buffer_[i]`, read and written.
  pub fetch : Spsc A → ℕ → Option A
  fetch q i = elim q.buffer [ none ↦ none | some b ↦ get_elem? b i ]

  pub store : Spsc A → ℕ → A → Option (Spsc A)
  store q i item = elim q.buffer [
    | none ↦ none
    | some b ↦ if ltb i (length b) then some (record q { buffer = some (set b i item) }) else none
  ]

  pub push : A → Spsc A → Option (Bool × Spsc A)
  push item q = do
    next ← next_idx q q.write_idx
    if next == q.read_idx
        then some (false, q)
        else (store q q.write_idx item >>= λ q'. some (true, record q' { write_idx = next }))

  -- The item that goes out through the reference, or `none` for `false`.
  pub pop : Spsc A → Option (Option A × Spsc A)
  pop q = if q.read_idx == q.write_idx then some (none, q) else (do
    item ← fetch q q.read_idx
    next ← next_idx q q.read_idx
    some (some item, record q { read_idx = next }))

  pub empty : Spsc A → Bool
  empty q = q.read_idx == q.write_idx

  pub full : Spsc A → Option Bool
  full q = next_idx q q.write_idx >>= λ next. some (next == q.read_idx)

  pub size_approx : Spsc A → ℕ
  size_approx q =
      if leb q.read_idx q.write_idx
      then sub_size q.write_idx q.read_idx
      else sub_size q.capacity (sub_size q.read_idx q.write_idx)
