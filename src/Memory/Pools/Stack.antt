-- ===== src/Memory/Pools/Stack.antt =====
-- `LockFreeStack` of include/memory/memory_pool.hpp: the head, and the `next` fields of the blocks.
-- An attempt is the part of a loop up to its compare-exchange, and attempts of several threads may
-- be interleaved; an operation of one thread is retried while its compare-exchange fails spuriously.
pub mod Linked
mod Tests
use scicompute.Base.{ℕ, zero, suc, Bool, true, false, Option, some, none, ◌==◌, if◌then◌else◌}

pub record LockFreeStack : Type 0 where
  pub head : Option ℕ
  pub next : ℕ → Option ℕ

abbrev pub same_ptr : Option ℕ → Option ℕ → Bool
same_ptr none none = true
same_ptr none (some b) = false
same_ptr (some a) none = false
same_ptr (some a) (some b) = a == b

-- `node->next = head`
pub link : ℕ → Option ℕ → LockFreeStack → LockFreeStack
link ptr head s = record s { next = λ b. if b == ptr then head else s.next b }

-- `head_.compare_exchange_weak(expected, desired)` where it does not fail spuriously.
pub swap : Option ℕ → Option ℕ → LockFreeStack → Bool × LockFreeStack
swap expected desired s =
    if same_ptr s.head expected then (true, record s { head = desired }) else (false, s)

-- `Push` of one thread: the head is loaded, and after each of n spurious failures again.
pub push : ℕ → ℕ → LockFreeStack → LockFreeStack
unfolding link swap
push zero ptr s = (swap s.head (some ptr) (link ptr s.head s)).1
push (suc n) ptr s = push n ptr (link ptr s.head s)

-- What `Pop` gives when the exchange succeeds, by the head that it loaded.
pub pop_head : Option ℕ → LockFreeStack → Option ℕ × LockFreeStack
unfolding swap
pop_head none s = (none, s)
pop_head (some b) s = (some b, (swap (some b) (s.next b) s).1)

-- `Pop` of one thread, after n spurious failures, which change nothing.
pub pop : ℕ → LockFreeStack → Option ℕ × LockFreeStack
unfolding pop_head
pop zero s = pop_head s.head s
pop (suc n) s = pop n s

pub empty : LockFreeStack → Bool
empty s = same_ptr s.head none
