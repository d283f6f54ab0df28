-- ===== src/Queue/Mpsc/Tests.antt =====
-- `MPSCQueue` at concrete inputs.
use scicompute.Base.{
  ℕ, zero, suc, ◌%◌, ◌≤◌, ◌≡◌, ◌≢◌, refl, Bool, true, false, some, none, [], ◌∷◌, arith, length,
  take, drop, add_size,
}
use scicompute.Queue.Mpsc.{
  Mpsc, fresh, init, reserve, push, push_loop, pop, push_batch, pop_batch, node_at, set_item,
  set_sequence, set_node, with_capacity, fill, update,
}
use scicompute.Queue.Mpsc.Holds.{Holds, Holds-start, Holds-push}
use scicompute.Queue.Mpsc.Fifo.{push_refines, pop_refines}
use scicompute.Queue.Mpsc.Batch.{push_batch_refines, pop_batch_refines}
use scicompute.Queue.Mpsc.Threads.{
  Producer, Consumer, System, push_load, push_sequence, push_claim, push_write, push_publish,
  pop_load, pop_ready, Reach, here, later, start,
}
use scicompute.Queue.Mpsc.Threads.Delivery.{claim_order, writers_apart, reader_apart}

-- The compare-exchange fails for no reason in every round but the last.
abbrev late : ℕ → Bool
late zero = false
late (suc i) = true

abbrev two : Mpsc ℕ
two = with_capacity 0 2

two-Holds : Holds two []
two-Holds = Holds-start 0 2 (omega arith)

push_refines_example :
    (q : Mpsc ℕ) × (push late 4 7 two ≡ some (true, q))
    × Holds q (7 ∷ [])
    × (q.capacity ≡ 2)
    × (q.enqueue_pos ≤ 1)
push_refines_example = push_refines late 4 0 two [] 7 (omega arith) refl two-Holds (omega arith)

push_batch_refines_example :
    (q : Mpsc ℕ) × (push_batch late 4 (7 ∷ 8 ∷ 9 ∷ []) two ≡ some (2, q)) × Holds q (7 ∷ 8 ∷ [])
push_batch_refines_example =
    push_batch_refines late 4 0 (7 ∷ 8 ∷ 9 ∷ []) two [] (omega arith) refl two-Holds (omega arith)

-- A queue of two slots that holds 7, at position 0.
abbrev held : Mpsc ℕ
held = fill (record two { enqueue_pos = add_size 0 1 }) 0 7

held-Holds : Holds held (7 ∷ [])
held-Holds = Holds-push two [] 7 two-Holds (omega arith) (omega arith)

pop_refines_example :
    ((pop held).0 ≡ some 7)
    × Holds (pop held).1 []
    × ((pop held).1.capacity ≡ held.capacity)
    × ((pop held).1.enqueue_pos ≡ held.enqueue_pos)
unfolding set_sequence set_item
pop_refines_example = pop_refines held (7 ∷ []) held-Holds (omega arith)

pop_batch_refines_example :
    ((pop_batch 3 held).0 ≡ take 3 (7 ∷ [])) × Holds (pop_batch 3 held).1 (drop 3 (7 ∷ []))
unfolding set_sequence set_item
pop_batch_refines_example = pop_batch_refines 3 held (7 ∷ []) held-Holds (omega arith)

-- `Reserve(1)` on a queue that was never initialised succeeds, though `Init(1)` is refused; two
-- `Push` calls then succeed on its one slot, and `Pop` finds nothing: both items are lost.
abbrev single : Mpsc ℕ
unfolding fresh reserve
single = (reserve 0 1 (fresh 0)).1

reserve_one_loses :
    ((init {A = ℕ} 0 1 (fresh 0)).0 ≡ false)
    × ((reserve {A = ℕ} 0 1 (fresh 0)).0 ≡ true)
    × (q : Mpsc ℕ) × ((push_batch late 1 (7 ∷ 8 ∷ []) single) ≡ some (2, q))
    × ((pop q).0 ≡ none)
unfolding init reserve fresh push push_loop pop push_batch node_at set_item set_sequence set_node
reserve_one_loses = (refl, refl, _, refl, refl)

abbrev claimed_once : System ℕ
claimed_once = record (start 0 2) {
  mem = record ((start 0 2).mem) { enqueue_pos = 1 };
  threads =
      update
        (update (update (start 0 2).threads 0 (Producer.looping 7 0)) 0 (Producer.compared 7 0 0)) 0
        (Producer.claimed 7 0);
  claims = 7 ∷ [];
}

claimed_once-Reach : Reach 0 2 claimed_once
unfolding init fresh node_at
claimed_once-Reach =
    later (later (later here (push_load 0 7 refl refl)) (push_sequence 0 7 0 refl))
      (push_claim 0 7 0 0 refl refl refl)

-- Threads 0 and 1 have claimed the two positions, and neither has written.
abbrev claimed_twice : System ℕ
claimed_twice = record claimed_once {
  mem = record (claimed_once.mem) { enqueue_pos = 2 };
  threads =
      update
        (update (update claimed_once.threads 1 (Producer.looping 8 1)) 1 (Producer.compared 8 1 1))
        1 (Producer.claimed 8 1);
  claims = 7 ∷ 8 ∷ [];
}

claimed_twice-Reach : Reach 0 2 claimed_twice
unfolding init fresh node_at
claimed_twice-Reach =
    later (later (later claimed_once-Reach (push_load 1 8 refl refl)) (push_sequence 1 8 1 refl))
      (push_claim 1 8 1 1 refl refl refl)

-- Thread 0 has published, and `Pop` is about to read its item.
abbrev published : System ℕ
published = record claimed_twice {
  mem = set_sequence (set_item claimed_twice.mem 0 7) 0 1;
  threads = update (update claimed_twice.threads 0 (Producer.written 7 0)) 0 Producer.resting;
  consumer = Consumer.ready 0;
}

published-Reach : Reach 0 2 published
unfolding init fresh node_at set_item set_sequence set_node
published-Reach =
    later
      (later (later (later claimed_twice-Reach (push_write 0 7 0 refl)) (push_publish 0 7 0 refl))
        (pop_load refl refl))
      (pop_ready 0 refl refl)

claim_order_example :
    (published.got ≡ take 0 published.claims)
    × (0 ≤ length published.claims)
    × (length published.claims ≤ 2)
claim_order_example = claim_order 0 2 published (omega arith) published-Reach (omega arith)

writers_apart_example : 0 % claimed_twice.mem.capacity ≢ 1 % claimed_twice.mem.capacity
writers_apart_example =
    writers_apart 0 2 claimed_twice 0 1 0 1 (omega arith) claimed_twice-Reach (omega arith)
      (omega arith) refl refl

reader_apart_example : 1 % published.mem.capacity ≢ 0 % published.mem.capacity
reader_apart_example =
    reader_apart 0 2 published 1 1 0 (omega arith) published-Reach (omega arith) refl refl
