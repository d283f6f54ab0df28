-- ===== src/Queue/Mpsc/Threads.antt =====
-- Any number of threads in `Push` and one thread in `Pop`, interleaved at each shared access.
-- A release store is seen whole by the acquire load that reads it.
pub mod Defs
pub mod Pushes
pub mod Pops
pub mod Steps
pub mod Delivery
use scicompute.Base.{ℕ, ◌≡◌, true, false, List, [], ◌∷◌, ◌++◌, add_size}
use scicompute.Queue.Mpsc.{
  Mpsc, update, node_at, set_item, set_sequence, init, fresh, difference_is_zero,
  difference_is_negative,
}

-- Where `Push` stands, with its locals: before the load of the node's sequence number, before the
-- tests and the compare-exchange, before the write of the item, before the store of the number.
pub data Producer {ℓ} (A : Type ℓ) : Type ℓ where
  resting : Producer A
  looping : (x : A) (pos : ℕ) → Producer A
  compared : (x : A) (pos sequence : ℕ) → Producer A
  claimed : (x : A) (pos : ℕ) → Producer A
  written : (x : A) (pos : ℕ) → Producer A

-- Where `Pop` stands: before the load of the sequence number, before the read of the item, before
-- the store of `dequeue_pos_`, before the store of the sequence number.
pub data Consumer {ℓ} (A : Type ℓ) : Type ℓ where
  resting : Consumer A
  loaded : (pos : ℕ) → Consumer A
  ready : (pos : ℕ) → Consumer A
  fetched : (pos : ℕ) (x : A) → Consumer A
  releasing : (pos : ℕ) → Consumer A

-- `claims` are the items in the order in which their positions were claimed, and `got` those that
-- `Pop` has taken.
pub record System {ℓ} (A : Type ℓ) : Type ℓ where
  pub mem : Mpsc A
  pub threads : ℕ → Producer A
  pub consumer : Consumer A
  pub claims : List A
  pub got : List A

module _ {ℓ} {A : Type ℓ} where
  abbrev pub at : System A → ℕ → Producer A → System A
  at s t p = record s { threads = update s.threads t p }

  pub data Step (s : System A) : System A → Type ℓ where
    push_load :
        (t : ℕ) (x : A)
        → s.threads t ≡ Producer.resting
        → s.mem.allocated ≡ true
        → Step s (at s t (Producer.looping x s.mem.enqueue_pos))
    push_sequence :
        (t : ℕ) (x : A) (pos : ℕ)
        → s.threads t ≡ Producer.looping x pos
        → Step s (at s t (Producer.compared x pos (node_at s.mem pos).sequence))
    push_claim :
        (t : ℕ) (x : A) (pos sequence : ℕ)
        → s.threads t ≡ Producer.compared x pos sequence
        → difference_is_zero sequence pos ≡ true
        → s.mem.enqueue_pos ≡ pos
        → Step s (record s {
          mem = record (s.mem) { enqueue_pos = add_size pos 1 };
          threads = update s.threads t (Producer.claimed x pos);
          claims = s.claims ++ x ∷ [];
        })
    -- The compare-exchange fails, since the position has moved or for no reason.
    push_retry :
        (t : ℕ) (x : A) (pos sequence : ℕ)
        → s.threads t ≡ Producer.compared x pos sequence
        → difference_is_zero sequence pos ≡ true
        → Step s (at s t (Producer.looping x s.mem.enqueue_pos))
    push_full :
        (t : ℕ) (x : A) (pos sequence : ℕ)
        → s.threads t ≡ Producer.compared x pos sequence
        → difference_is_zero sequence pos ≡ false
        → difference_is_negative sequence pos ≡ true
        → Step s (at s t Producer.resting)
    push_reload :
        (t : ℕ) (x : A) (pos sequence : ℕ)
        → s.threads t ≡ Producer.compared x pos sequence
        → difference_is_zero sequence pos ≡ false
        → difference_is_negative sequence pos ≡ false
        → Step s (at s t (Producer.looping x s.mem.enqueue_pos))
    push_write :
        (t : ℕ) (x : A) (pos : ℕ)
        → s.threads t ≡ Producer.claimed x pos
        → Step s (record s {
          mem = set_item s.mem pos x;
          threads = update s.threads t (Producer.written x pos);
        })
    push_publish :
        (t : ℕ) (x : A) (pos : ℕ)
        → s.threads t ≡ Producer.written x pos
        → Step s (record s {
          mem = set_sequence s.mem pos (add_size pos 1);
          threads = update s.threads t Producer.resting;
        })
    pop_load :
        s.consumer ≡ Consumer.resting
        → s.mem.allocated ≡ true
        → Step s (record s { consumer = Consumer.loaded s.mem.dequeue_pos })
    pop_empty :
        (pos : ℕ)
        → s.consumer ≡ Consumer.loaded pos
        → difference_is_zero (node_at s.mem pos).sequence (add_size pos 1) ≡ false
        → Step s (record s { consumer = Consumer.resting })
    pop_ready :
        (pos : ℕ)
        → s.consumer ≡ Consumer.loaded pos
        → difference_is_zero (node_at s.mem pos).sequence (add_size pos 1) ≡ true
        → Step s (record s { consumer = Consumer.ready pos })
    pop_fetch :
        (pos : ℕ)
        → s.consumer ≡ Consumer.ready pos
        → Step s (record s { consumer = Consumer.fetched pos (node_at s.mem pos).item })
    pop_advance :
        (pos : ℕ) (x : A)
        → s.consumer ≡ Consumer.fetched pos x
        → Step s (record s {
          mem = record (s.mem) { dequeue_pos = add_size pos 1 };
          consumer = Consumer.releasing pos;
          got = s.got ++ x ∷ [];
        })
    pop_release :
        (pos : ℕ)
        → s.consumer ≡ Consumer.releasing pos
        → Step s (record s {
          mem = set_sequence s.mem pos (add_size pos s.mem.capacity);
          consumer = Consumer.resting;
        })

  -- All threads at rest on a queue of `n` slots that `Init` has set up.
  abbrev pub start : A → ℕ → System A
  start blank n = record {
    mem = (init blank n (fresh blank)).1;
    threads = λ t. Producer.resting;
    consumer = Consumer.resting;
    claims = [];
    got = [];
  }

  pub data Reach (blank : A) (n : ℕ) : System A → Type ℓ where
    here : Reach blank n (start blank n)
    later : {s t : System A} → Reach blank n s → Step s t → Reach blank n t
