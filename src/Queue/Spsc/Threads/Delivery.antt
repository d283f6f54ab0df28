-- ===== src/Queue/Spsc/Threads/Delivery.antt =====
-- What the two threads see of `SPSCQueue`.
use scicompute.Base.{
  ℕ, ◌<◌, ◌≡◌, ◌≢◌, refl, sym, ap, ◌∙◌, some, none, List, [], ◌∷◌, ◌++◌, length, arith, size_mod,
  ==_ne,
}
use scicompute.Queue.Spsc.{Spsc, init, next_idx, fetch, store}
use scicompute.Queue.Spsc.Holds.{Holds, next_idx-lem, store-eq, fetch-eq, write_in}
use scicompute.Queue.Spsc.Threads.{
  Producer, Consumer, System, Step, push_load, push_full, push_room, push_write, push_publish,
  pop_load, pop_empty, pop_ready, pop_fetch, pop_release, Reach, here, later,
}
use scicompute.Queue.Spsc.Threads.Invariant.{ProducerAgrees, ConsumerAgrees, Reach-Inv}

module _ {ℓ} {A : Type ℓ} where
  store-capacity :
      (q q' : Spsc A) (i : ℕ) (item : A) → store q i item ≡ some q' → q'.capacity ≡ q.capacity
  unfolding store
  store-capacity q q' i item e = ground arith

  Step-capacity : {s t : System A} → Step s t → t.mem.capacity ≡ s.mem.capacity
  Step-capacity {s} (push_write item write n mem e f) = store-capacity s.mem mem write item f
  Step-capacity (push_load item e) = refl
  Step-capacity (push_full item write n e f g) = refl
  Step-capacity (push_room item write n e f g) = refl
  Step-capacity (push_publish item n e) = refl
  Step-capacity (pop_load e) = refl
  Step-capacity (pop_empty read e f) = refl
  Step-capacity (pop_ready read e f) = refl
  Step-capacity (pop_fetch read item e f) = refl
  Step-capacity (pop_release read n item e f) = refl

  Reach-capacity : {blank : A} {n : ℕ} {s : System A} → 0 < n → Reach blank n s → s.mem.capacity ≡ n
  unfolding init
  Reach-capacity {blank} {n} p here = rw (==_ne n 0 (omega arith))
  Reach-capacity p (later r st) = Step-capacity st ∙ Reach-capacity p r

  -- After any interleaving of one thread in `Push` and one in `Pop`, on a queue that `Init` gave
  -- a capacity `n` with 0 < n < 2^64, the items published so far are the items returned so far, in
  -- order, followed by those that the queue still holds, which are fewer than `n`.
  pub delivery :
      (blank : A) (n : ℕ) (s : System A)
      → 0 < n
      → n < size_mod
      → Reach blank n s
      → (xs : List A) × (s.sent ≡ s.got ++ xs) × Holds s.mem xs × (length xs < n)
  delivery blank n s p b r =
      let v = Reach-Inv p b r in
      (v.pending, v.split, v.holds, omega (arith, v.holds.room, Reach-capacity p r))

  -- The accesses that the threads are about to make, each defined.
  abbrev pub PushDefined : Spsc A → Producer A → Type ℓ
  PushDefined q Producer.resting = Unit
  PushDefined q (Producer.loaded item write) = (next_idx q write ≢ none) × Unit {ℓ}
  PushDefined q (Producer.checked item write n) = store q write item ≢ none
  PushDefined q (Producer.written item n) = Unit

  abbrev pub PopDefined : Spsc A → Consumer A → Type ℓ
  PopDefined q Consumer.resting = Unit
  PopDefined q (Consumer.loaded read) = Unit
  PopDefined q (Consumer.checked read) = fetch q read ≢ none
  PopDefined q (Consumer.fetched read item) = (next_idx q read ≢ none) × Unit {ℓ}

  fetch-ne-none :
      (q : Spsc A) (xs : List A) → Holds q xs → 0 < length xs → fetch q q.read_idx ≢ none
  fetch-ne-none q [] h p e = absurd (omega arith)
  fetch-ne-none q (x ∷ xs) h p e = cc (fetch-eq q x xs h)

  index-ne-none :
      (q : Spsc A) (xs : List A) (i : ℕ) → Holds q xs → i < q.capacity → next_idx q i ≢ none
  index-ne-none q xs i h lt e = cc (next_idx-lem q i lt h.small)

  push_defined :
      (q : Spsc A) (xs : List A) (p : Producer A)
      → Holds q xs
      → ProducerAgrees q (length xs) p
      → PushDefined q p
  push_defined q xs Producer.resting h a = tt
  push_defined q xs (Producer.loaded item write) h a =
      (index-ne-none q xs write h (omega (arith, a.0, write_in q xs h)), tt)
  push_defined q xs (Producer.checked item write n) h a =
      λ f. cc (ap (λ i. store q i item) a.0, store-eq q xs item h)
  push_defined q xs (Producer.written item n) h a = tt

  pop_defined :
      (q : Spsc A) (xs : List A) (c : Consumer A)
      → Holds q xs
      → ConsumerAgrees q.read_idx xs c
      → PopDefined q c
  pop_defined q xs Consumer.resting h a = tt
  pop_defined q xs (Consumer.loaded read) h a = tt
  pop_defined q xs (Consumer.checked read) h a =
      λ f. fetch-ne-none q xs h a.1 (ap (fetch q) (sym a.0) ∙ f)
  pop_defined q xs (Consumer.fetched read item) h a =
      (index-ne-none q xs read h (omega (arith, a.0, h.read_in)), tt)

  -- In every reachable state, on a queue that `Init` gave a capacity n with 0 < n < 2^64, the
  -- access that each thread is about to make is defined: no division by zero, no slot outside the
  -- buffer.
  pub never_faults :
      (blank : A) (n : ℕ) (s : System A)
      → 0 < n
      → n < size_mod
      → Reach blank n s
      → PushDefined s.mem s.producer × PopDefined s.mem s.consumer
  never_faults blank n s p b r =
      let v = Reach-Inv p b r in
      (
        push_defined s.mem v.pending s.producer v.holds v.producing,
        pop_defined s.mem v.pending s.consumer v.holds v.consuming,
      )
