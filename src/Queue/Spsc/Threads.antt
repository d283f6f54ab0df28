-- ===== src/Queue/Spsc/Threads.antt =====
-- One producer thread in `Push` and one consumer thread in `Pop`, interleaved at each shared
-- access. A release store is seen whole by the acquire load that reads it.
pub mod Invariant
pub mod Delivery
use scicompute.Base.{ℕ, ◌≡◌, ◌≢◌, some, List, [], ◌∷◌, ◌++◌}
use scicompute.Queue.Spsc.{Spsc, fresh, init, next_idx, fetch, store}

-- Where `Push` stands, with its locals: before the load of `read_idx_`, before the write of the
-- slot, before the store of `write_idx_`.
pub data Producer {ℓ} (A : Type ℓ) : Type ℓ where
  resting : Producer A
  loaded : (item : A) (write : ℕ) → Producer A
  checked : (item : A) (write next : ℕ) → Producer A
  written : (item : A) (next : ℕ) → Producer A

-- Where `Pop` stands: before the load of `write_idx_`, before the read of the slot, before the
-- store of `read_idx_`.
pub data Consumer {ℓ} (A : Type ℓ) : Type ℓ where
  resting : Consumer A
  loaded : (read : ℕ) → Consumer A
  checked : (read : ℕ) → Consumer A
  fetched : (read : ℕ) (item : A) → Consumer A

-- `sent` and `got` are the items that `Push` has published and that `Pop` has returned, in order.
pub record System {ℓ} (A : Type ℓ) : Type ℓ where
  pub mem : Spsc A
  pub producer : Producer A
  pub consumer : Consumer A
  pub sent : List A
  pub got : List A

module _ {ℓ} {A : Type ℓ} where
  pub data Step (s : System A) : System A → Type ℓ where
    push_load :
        (item : A)
        → s.producer ≡ Producer.resting
        → Step s (record s { producer = Producer.loaded item s.mem.write_idx })
    push_full :
        (item : A) (write next : ℕ)
        → s.producer ≡ Producer.loaded item write
        → next_idx s.mem write ≡ some next
        → next ≡ s.mem.read_idx
        → Step s (record s { producer = Producer.resting })
    push_room :
        (item : A) (write next : ℕ)
        → s.producer ≡ Producer.loaded item write
        → next_idx s.mem write ≡ some next
        → next ≢ s.mem.read_idx
        → Step s (record s { producer = Producer.checked item write next })
    push_write :
        (item : A) (write next : ℕ) (mem : Spsc A)
        → s.producer ≡ Producer.checked item write next
        → store s.mem write item ≡ some mem
        → Step s (record s { mem = mem; producer = Producer.written item next })
    push_publish :
        (item : A) (next : ℕ)
        → s.producer ≡ Producer.written item next
        → Step s (record s {
          mem = record (s.mem) { write_idx = next };
          producer = Producer.resting;
          sent = s.sent ++ item ∷ [];
        })
    pop_load :
        s.consumer ≡ Consumer.resting
        → Step s (record s { consumer = Consumer.loaded s.mem.read_idx })
    pop_empty :
        (read : ℕ)
        → s.consumer ≡ Consumer.loaded read
        → read ≡ s.mem.write_idx
        → Step s (record s { consumer = Consumer.resting })
    pop_ready :
        (read : ℕ)
        → s.consumer ≡ Consumer.loaded read
        → read ≢ s.mem.write_idx
        → Step s (record s { consumer = Consumer.checked read })
    pop_fetch :
        (read : ℕ) (item : A)
        → s.consumer ≡ Consumer.checked read
        → fetch s.mem read ≡ some item
        → Step s (record s { consumer = Consumer.fetched read item })
    pop_release :
        (read next : ℕ) (item : A)
        → s.consumer ≡ Consumer.fetched read item
        → next_idx s.mem read ≡ some next
        → Step s (record s {
          mem = record (s.mem) { read_idx = next };
          consumer = Consumer.resting;
          got = s.got ++ item ∷ [];
        })

  -- Both threads at rest on a queue that `Init` has set up.
  abbrev pub start : A → ℕ → System A
  start blank n = record {
    mem = (init blank n fresh).1;
    producer = Producer.resting;
    consumer = Consumer.resting;
    sent = [];
    got = [];
  }

  pub data Reach (blank : A) (n : ℕ) : System A → Type ℓ where
    here : Reach blank n (start blank n)
    later : {s t : System A} → Reach blank n s → Step s t → Reach blank n t
