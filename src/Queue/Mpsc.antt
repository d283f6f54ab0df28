-- ===== src/Queue/Mpsc.antt =====
-- `MPSCQueue<T>` of include/bridges/impl/ipc_queue_impl.hpp, called from one thread at a time.
-- The pool is a function of the slot index; every access is at a position modulo the capacity.
pub mod Slots
pub mod Ring
pub mod Holds
pub mod Fifo
pub mod Batch
pub mod Threads
mod Tests
use scicompute.Base.{
  ℕ, zero, suc, ◌+◌, ◌-◌, ◌%◌, ◌^◌, Bool, true, false, not, ◌||◌, Option, none, some, List, [], ◌∷◌,
  add_size, sub_size, ltb, leb, ◌==◌, if◌then◌else◌,
}
use scicompute.Base.Int.{intptr, diff, is_zero, is_negative}
use scicompute.Base.Fallible.{◌>>=◌}

pub record Node {ℓ} (A : Type ℓ) : Type ℓ where
  pub sequence : ℕ
  pub item : A

-- `allocated` says that `pool_` is not null.
pub record Mpsc {ℓ} (A : Type ℓ) : Type ℓ where
  pub allocated : Bool
  pub pool : ℕ → Node A
  pub capacity : ℕ
  pub enqueue_pos : ℕ
  pub dequeue_pos : ℕ

abbrev pub update {ℓ} : {A : Type ℓ} → (ℕ → A) → ℕ → A → ℕ → A
update f i v j = if i == j then v else f j

-- The signed `difference` of a node's sequence number and a position.
abbrev pub difference_is_zero : ℕ → ℕ → Bool
difference_is_zero sequence pos = is_zero (diff (intptr sequence) (intptr pos))

abbrev pub difference_is_negative : ℕ → ℕ → Bool
difference_is_negative sequence pos = is_negative (diff (intptr sequence) (intptr pos))

module _ {ℓ} {A : Type ℓ} where
  -- `pool_[pos % pool_capacity_]`
  pub node_at : Mpsc A → ℕ → Node A
  node_at q pos = q.pool (pos % q.capacity)

  pub set_node : Mpsc A → ℕ → Node A → Mpsc A
  set_node q pos n = record q { pool = update q.pool (pos % q.capacity) n }

  -- `node->sequence.store(v)` and `node->data = item`
  pub set_sequence : Mpsc A → ℕ → ℕ → Mpsc A
  unfolding set_node node_at
  set_sequence q pos v = set_node q pos (record (node_at q pos) { sequence = v })

  pub set_item : Mpsc A → ℕ → A → Mpsc A
  unfolding set_node node_at
  set_item q pos x = set_node q pos (record (node_at q pos) { item = x })

  -- `new Node[n]`, numbered; `blank` is the value that each `data` starts with.
  abbrev pub numbered : A → ℕ → Node A
  numbered blank i = record { sequence = i; item = blank }

  -- The default constructor.
  pub fresh : A → Mpsc A
  fresh blank = record {
    allocated = false;
    pool = numbered blank;
    capacity = 0;
    enqueue_pos = 0;
    dequeue_pos = 0;
  }

  pub destroy : Mpsc A → Mpsc A
  destroy q = record q { allocated = false; capacity = 0; enqueue_pos = 0; dequeue_pos = 0 }

  abbrev pub with_capacity : A → ℕ → Mpsc A
  with_capacity blank n = record {
    allocated = true;
    pool = numbered blank;
    capacity = n;
    enqueue_pos = 0;
    dequeue_pos = 0;
  }

  pub init : A → ℕ → Mpsc A → Bool × Mpsc A
  unfolding destroy
  init blank n q = if ltb n 2 then (false, destroy q) else (true, with_capacity blank n)

  pub reserve : A → ℕ → Mpsc A → Bool × Mpsc A
  reserve blank n q =
      if leb n q.capacity
      then (true, q)
      else if not (q.enqueue_pos == q.dequeue_pos)
      then (false, q)
      else (true, with_capacity blank n)

  -- What follows a claimed position: the item is written, then the sequence number.
  abbrev pub fill : Mpsc A → ℕ → A → Mpsc A
  fill q pos x = set_sequence (set_item q pos x) pos (add_size pos 1)

  -- The loop of `Push`, on fuel. `weak` says in which rounds `compare_exchange_weak` fails
  -- although the position is as expected; `none` is the fuel running out.
  pub push_loop : (ℕ → Bool) → ℕ → ℕ → A → Mpsc A → Option (Bool × Mpsc A)
  unfolding node_at set_item set_sequence
  push_loop weak zero pos x q = none
  push_loop weak (suc fuel) pos x q =
      let again = push_loop weak fuel q.enqueue_pos x q in
      let sequence = (node_at q pos).sequence in
      if difference_is_zero sequence pos
      then (if weak fuel || not (q.enqueue_pos == pos)
          then again
          else some (true, fill (record q { enqueue_pos = add_size pos 1 }) pos x))
      else if difference_is_negative sequence pos
      then some (false, q)
      else again

  pub push : (ℕ → Bool) → ℕ → A → Mpsc A → Option (Bool × Mpsc A)
  push weak fuel x q =
      if q.allocated then push_loop weak fuel q.enqueue_pos x q else some (false, q)

  -- The item that goes out through the reference, or `none` for `false`.
  pub pop : Mpsc A → Option A × Mpsc A
  unfolding node_at set_sequence
  pop q =
      if not q.allocated
      then (none, q)
      else if difference_is_zero (node_at q q.dequeue_pos).sequence (add_size q.dequeue_pos 1)
      then (
        some (node_at q q.dequeue_pos).item,
        set_sequence (record q { dequeue_pos = add_size q.dequeue_pos 1 }) q.dequeue_pos
            (add_size q.dequeue_pos q.capacity),
      )
      else (none, q)

  pub empty : Mpsc A → Bool
  unfolding node_at
  empty q =
      if not q.allocated
      then true
      else not ((node_at q q.dequeue_pos).sequence == add_size q.dequeue_pos 1)

  pub size_approx : Mpsc A → ℕ
  size_approx q = sub_size q.enqueue_pos q.dequeue_pos

  -- The loop stops at the first item that is refused.
  pub push_batch : (ℕ → Bool) → ℕ → List A → Mpsc A → Option (ℕ × Mpsc A)
  unfolding push
  push_batch weak fuel [] q = some (0, q)
  push_batch weak fuel (x ∷ xs) q = push weak fuel x q >>= λ (r, q').
      let rest = push_batch weak fuel xs q' in
      if r then (rest >>= λ (n, q''). some (suc n, q'')) else some (0, q')

  -- The items that were popped, in order.
  pub pop_batch : ℕ → Mpsc A → List A × Mpsc A
  unfolding pop
  pop_batch zero q = ([], q)
  pop_batch (suc n) q =
      let (r, q') = pop q in
      let rest = pop_batch n q' in elim r [ none ↦ ([], q') | some x ↦ (x ∷ rest.0, rest.1) ]
