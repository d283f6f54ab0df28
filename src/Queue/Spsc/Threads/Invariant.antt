-- ===== src/Queue/Spsc/Threads/Invariant.antt =====
-- What holds at every point of an interleaving of `Push` and `Pop`.
use mathlib.Core.Path.{ap₂}
use mathlib.Core.List.{append_assoc}
use scicompute.Base.{
  ◌≤◌, get_elem?-lt, get_elem?-append_left, get_elem?-zero, dec_lt, some_inj, ℕ, ◌+◌, ◌%◌, ◌<◌, ◌≡◌,
  ◌≢◌, refl, sym, ap, subst, ◌∙◌, some, List, [], ◌∷◌, ◌++◌, length, get_elem?, length-append,
  arith, size_mod,
}
use scicompute.Queue.Spsc.{Spsc, fresh, next_idx, fetch, store}
use scicompute.Queue.Spsc.Holds.{
  Holds, fetch-eq, Holds-store, Holds-publish, Holds-drop, next_idx-lem, write_in, next-eq-read,
  read-eq-write, storage-eq,
}
use scicompute.Queue.Spsc.Fifo.{init-Holds}
use scicompute.Queue.Spsc.Threads.{
  Producer, Consumer, System, Step, push_load, push_full, push_room, push_write, push_publish,
  pop_load, pop_empty, pop_ready, pop_fetch, pop_release, Reach, here, later,
}

module _ {ℓ} {A : Type ℓ} where
  -- The producer's locals against the queue, which holds `count` items.
  abbrev pub ProducerAgrees : Spsc A → ℕ → Producer A → Type ℓ
  ProducerAgrees q count Producer.resting = Unit
  ProducerAgrees q count (Producer.loaded item write) = (write ≡ q.write_idx) × Unit {ℓ}
  ProducerAgrees q count (Producer.checked item write next) =
      (write ≡ q.write_idx)
      × (next ≡ (q.write_idx + 1) % q.capacity)
      × (count + 1 < q.capacity)
      × Unit {ℓ}
  ProducerAgrees q count (Producer.written item next) =
      (next ≡ (q.write_idx + 1) % q.capacity)
      × (count + 1 < q.capacity)
      × (fetch q q.write_idx ≡ some item)

  -- The consumer's locals against the read index and the items held.
  abbrev pub ConsumerAgrees : ℕ → List A → Consumer A → Type ℓ
  ConsumerAgrees read xs Consumer.resting = Unit
  ConsumerAgrees read xs (Consumer.loaded r) = (r ≡ read) × Unit {ℓ}
  ConsumerAgrees read xs (Consumer.checked r) = (r ≡ read) × (0 < length xs) × Unit {ℓ}
  ConsumerAgrees read xs (Consumer.fetched r item) = (r ≡ read) × (get_elem? xs 0 ≡ some item)

  pub record Inv (s : System A) : Type ℓ where
    pub pending : List A
    pub split : s.sent ≡ s.got ++ pending
    pub holds : Holds s.mem pending
    pub producing : ProducerAgrees s.mem (length pending) s.producer
    pub consuming : ConsumerAgrees s.mem.read_idx pending s.consumer

  Inv-push_full : (s : System A) → Inv s → Inv (record s { producer = Producer.resting })
  Inv-push_full s v = record {
    pending = v.pending;
    split = v.split;
    holds = v.holds;
    producing = tt;
    consuming = v.consuming;
  }

  -- The test that `Push` makes on a loaded `write_idx_` finds room.
  room_lem :
      (s : System A) (item : A) (write n : ℕ) (v : Inv s)
      → s.producer ≡ Producer.loaded item write
      → next_idx s.mem write ≡ some n
      → n ≢ s.mem.read_idx
      → ProducerAgrees s.mem (length v.pending) (Producer.checked item write n)
  room_lem s item write n v e f g =
      let at : (write ≡ s.mem.write_idx) × Unit {ℓ} =
        subst (ProducerAgrees s.mem (length v.pending)) e v.producing in
      let n-eq : n ≡ (s.mem.write_idx + 1) % s.mem.capacity = some_inj (
        sym f
        ∙ ap (next_idx s.mem) at.0
        ∙ next_idx-lem s.mem s.mem.write_idx (write_in s.mem v.pending v.holds) v.holds.small) in
      (at.0, n-eq, room_of n-eq, tt)
    where
      room_of : n ≡ (s.mem.write_idx + 1) % s.mem.capacity → length v.pending + 1 < s.mem.capacity
      room_of k = elim (dec_lt (length v.pending + 1) s.mem.capacity) [
        | yes p ↦ p
        | no p ↦ absurd (g (k ∙ next-eq-read s.mem v.pending v.holds (omega (arith, v.holds.room))))
      ]

  -- The test that `Pop` makes on a loaded `read_idx_` finds an item.
  ready_lem :
      (s : System A) (read : ℕ) (v : Inv s)
      → s.consumer ≡ Consumer.loaded read
      → read ≢ s.mem.write_idx
      → ConsumerAgrees s.mem.read_idx v.pending (Consumer.checked read)
  ready_lem s read v e f =
      let at : (read ≡ s.mem.read_idx) × Unit {ℓ} =
        subst (ConsumerAgrees s.mem.read_idx v.pending) e v.consuming in
      (at.0, nonempty v.pending v.holds at.0, tt)
    where
      nonempty : (xs : List A) → Holds s.mem xs → read ≡ s.mem.read_idx → 0 < length xs
      nonempty [] h k = absurd (f (k ∙ read-eq-write s.mem h))
      nonempty (x ∷ xs) h k = omega arith

  -- Appending an item keeps the oldest one.
  ConsumerAgrees-append :
      (read : ℕ) (xs : List A) (item : A) (c : Consumer A)
      → ConsumerAgrees read xs c
      → ConsumerAgrees read (xs ++ item ∷ []) c
  ConsumerAgrees-append read xs item Consumer.resting h = tt
  ConsumerAgrees-append read xs item (Consumer.loaded r) h = h
  ConsumerAgrees-append read xs item (Consumer.checked r) h =
      (h.0, omega (arith, h.1, length-append xs (item ∷ [])), tt)
  ConsumerAgrees-append read xs item (Consumer.fetched r x) h =
      (h.0, get_elem?-append_left xs (item ∷ []) 0 (get_elem?-lt xs 0 h.1) ∙ h.1)

  -- What the producer knows stays true while the consumer moves `read_idx_` on.
  ProducerAgrees-drop :
      (q : Spsc A) (read count count' : ℕ)
      → count' ≤ count
      → (p : Producer A) → ProducerAgrees q count p
      → ProducerAgrees (record q { read_idx = read }) count' p
  unfolding fetch
  ProducerAgrees-drop q read count count' le Producer.resting h = tt
  ProducerAgrees-drop q read count count' le (Producer.loaded item w) h = h
  ProducerAgrees-drop q read count count' le (Producer.checked item w n) h =
      (h.0, h.1, omega (arith, h.2), tt)
  ProducerAgrees-drop q read count count' le (Producer.written item n) h =
      (h.0, omega (arith, h.1), h.2)

  oldest :
      (q : Spsc A) (xs : List A) (item : A)
      → Holds q xs
      → 0 < length xs
      → fetch q q.read_idx ≡ some item
      → get_elem? xs 0 ≡ some item
  oldest q [] item h p e = absurd (omega arith)
  oldest q (x ∷ xs) item h p e = sym (fetch-eq q x xs h) ∙ e

  pub Inv-Step : {s t : System A} → Inv s → Step s t → Inv t
  Inv-Step {s} v (push_load item e) = record {
    pending = v.pending;
    split = v.split;
    holds = v.holds;
    producing = (refl, tt);
    consuming = v.consuming;
  }
  Inv-Step {s} v (push_full item write n e f g) = Inv-push_full s v
  Inv-Step {s} v (push_room item write n e f g) = record {
    pending = v.pending;
    split = v.split;
    holds = v.holds;
    producing = room_lem s item write n v e f g;
    consuming = v.consuming;
  }
  Inv-Step {s} v (push_write item write n mem e f) =
      let at : (write ≡ s.mem.write_idx)
          × (n ≡ (s.mem.write_idx + 1) % s.mem.capacity)
          × (length v.pending + 1 < s.mem.capacity)
          × Unit {ℓ} =
        subst (ProducerAgrees s.mem (length v.pending)) e v.producing in
      let (held, wrote, w, r, c) =
        Holds-store s.mem v.pending item mem v.holds at.2
          (ap (λ k. store s.mem k item) (sym at.0) ∙ f) in
      record {
        pending = v.pending;
        split = v.split;
        holds = held;
        producing = (
          at.1 ∙ ap₂ (λ i k. (i + 1) % k) (sym w) (sym c),
          omega (arith, at.2),
          ap (fetch mem) w ∙ wrote,
        );
        consuming = subst (λ k. ConsumerAgrees k v.pending s.consumer) (sym r) v.consuming;
      }
  Inv-Step {s} v (push_publish item n e) =
      let at : (n ≡ (s.mem.write_idx + 1) % s.mem.capacity)
          × (length v.pending + 1 < s.mem.capacity)
          × (fetch s.mem s.mem.write_idx ≡ some item) =
        subst (ProducerAgrees s.mem (length v.pending)) e v.producing in
      record {
        pending = v.pending ++ item ∷ [];
        split = ap (λ xs. xs ++ item ∷ []) v.split ∙ append_assoc s.got v.pending (item ∷ []);
        holds =
            subst (λ k. Holds (record (s.mem) { write_idx = k }) (v.pending ++ item ∷ []))
              (sym at.0)
              (Holds-publish s.mem v.pending item v.holds at.1
                (sym (storage-eq s.mem v.pending s.mem.write_idx v.holds) ∙ at.2));
        producing = tt;
        consuming = ConsumerAgrees-append s.mem.read_idx v.pending item s.consumer v.consuming;
      }
  Inv-Step {s} v (pop_load e) = record {
    pending = v.pending;
    split = v.split;
    holds = v.holds;
    producing = v.producing;
    consuming = (refl, tt);
  }
  Inv-Step {s} v (pop_empty read e f) = record {
    pending = v.pending;
    split = v.split;
    holds = v.holds;
    producing = v.producing;
    consuming = tt;
  }
  Inv-Step {s} v (pop_ready read e f) = record {
    pending = v.pending;
    split = v.split;
    holds = v.holds;
    producing = v.producing;
    consuming = ready_lem s read v e f;
  }
  Inv-Step {s} v (pop_fetch read item e f) =
      let at : (read ≡ s.mem.read_idx) × (0 < length v.pending) × Unit {ℓ} =
        subst (ConsumerAgrees s.mem.read_idx v.pending) e v.consuming in
      record {
        pending = v.pending;
        split = v.split;
        holds = v.holds;
        producing = v.producing;
        consuming =
            (at.0, oldest s.mem v.pending item v.holds at.1 (ap (fetch s.mem) (sym at.0) ∙ f));
      }
  Inv-Step {s} v (pop_release read n item e f) =
      let at : (read ≡ s.mem.read_idx) × (get_elem? v.pending 0 ≡ some item) =
        subst (ConsumerAgrees s.mem.read_idx v.pending) e v.consuming in
      let (rest, cut) = get_elem?-zero v.pending at.1 in
      let n-eq : n ≡ (s.mem.read_idx + 1) % s.mem.capacity = some_inj (
        sym f
        ∙ ap (next_idx s.mem) at.0
        ∙ next_idx-lem s.mem s.mem.read_idx v.holds.read_in v.holds.small) in
      record {
        pending = rest;
        split = v.split ∙ ap (λ xs. s.got ++ xs) cut ∙ sym (append_assoc s.got (item ∷ []) rest);
        holds =
            subst (λ k. Holds (record (s.mem) { read_idx = k }) rest) (sym n-eq)
              (Holds-drop s.mem item rest (subst (Holds s.mem) cut v.holds));
        producing =
            ProducerAgrees-drop s.mem n (length v.pending) (length rest)
              (omega (arith, ap length cut)) s.producer v.producing;
        consuming = tt;
      }

  pub Reach-Inv :
      {blank : A} {n : ℕ} {s : System A} → 0 < n → n < size_mod → Reach blank n s → Inv s
  Reach-Inv {blank} {n} p b here = record {
    pending = [];
    split = refl;
    holds = (init-Holds blank n fresh p b).1;
    producing = tt;
    consuming = tt;
  }
  Reach-Inv p b (later r st) = Inv-Step (Reach-Inv p b r) st
