-- ===== src/Queue/Mpsc/Threads/Delivery.antt =====
-- What the threads see of `MPSCQueue`.
use native.Mathlib.Nat.{mod-eq_of_lt}
use scicompute.Base.{
  some_inj, ℕ, suc, ◌+◌, ◌%◌, ◌^◌, ◌≤◌, ◌<◌, ◌≡◌, ◌≢◌, true, refl, sym, ap, subst, ◌∙◌, some, List,
  [], ◌∷◌, arith, length, length-append, take,
}
use scicompute.Queue.Mpsc.{Mpsc, init, fresh, with_capacity, set_item, set_sequence}
use scicompute.Queue.Mpsc.Slots.{sequence_at}
use scicompute.Queue.Mpsc.Ring.{Ring, apart}
use scicompute.Queue.Mpsc.Threads.{
  Producer, Consumer, System, Step, push_load, push_sequence, push_claim, push_retry, push_full,
  push_reload, push_write, push_publish, pop_load, pop_empty, pop_ready, pop_fetch, pop_advance,
  pop_release, Reach, here, later, start,
}
use scicompute.Queue.Mpsc.Threads.Defs.{
  ProducerAgrees, ConsumerAgrees, low_of, released, holding, Inv,
}
use scicompute.Queue.Mpsc.Threads.Steps.{Inv-Step, Small}

module _ {ℓ} {A : Type ℓ} where
  -- The items claimed so far, and a capacity that stays.
  record Grows (s t : System A) : Type 0 where
    more : length s.claims ≤ length t.claims
    same : t.mem.capacity ≡ s.mem.capacity

  Step-Grows : {s t : System A} → Step s t → Grows s t
  unfolding set_item set_sequence
  Step-Grows {s} (push_claim t x pos sq e z p) = record {
    more = omega (arith, length-append s.claims (x ∷ []));
    same = refl;
  }
  Step-Grows (push_load t x e a) = omega arith
  Step-Grows (push_sequence t x pos e) = omega arith
  Step-Grows (push_retry t x pos sq e z) = omega arith
  Step-Grows (push_full t x pos sq e z n) = omega arith
  Step-Grows (push_reload t x pos sq e z n) = omega arith
  Step-Grows (push_write t x pos e) = omega arith
  Step-Grows (push_publish t x pos e) = omega arith
  Step-Grows (pop_load e a) = omega arith
  Step-Grows (pop_empty pos e z) = omega arith
  Step-Grows (pop_ready pos e z) = omega arith
  Step-Grows (pop_fetch pos e) = omega arith
  Step-Grows (pop_advance pos x e) = omega arith
  Step-Grows (pop_release pos e) = omega arith

  pub init-eq :
      (blank : A) (n : ℕ) (q : Mpsc A) → 2 ≤ n → init blank n q ≡ (true, with_capacity blank n)
  unfolding init
  init-eq blank n q h = ground arith

  Ring-start : (blank : A) (n : ℕ) → 2 ≤ n → Ring (with_capacity blank n) 0 []
  unfolding sequence_at
  Ring-start blank n h = record {
    two = h;
    tail = refl;
    ordered = omega arith;
    window = omega arith;
    bound = λ i. omega arith;
    free = λ i a b. mod-eq_of_lt {n = i} {m = n} (omega arith);
    used = λ i a b. elim b [ ];
  }

  Inv-start : (blank : A) (n : ℕ) → 2 ≤ n → Inv (start blank n)
  Inv-start blank n h =
      subst
        (λ (q : Mpsc A). Inv (record {
          mem = q;
          threads = λ t. Producer.resting;
          consumer = Consumer.resting;
          claims = [];
          got = [];
        }))
        (sym (ap (λ r. r.1) (init-eq blank n (fresh blank) h)))
        (record {
          ring = Ring-start blank n h;
          ahead = omega arith;
          taken = refl;
          order = refl;
          producing = λ t. tt;
          unique = λ t u pos e f. cc;
          consuming = tt;
        })

  Reach-Inv : {blank : A} {n : ℕ} {s : System A} → 2 ≤ n → Reach blank n s → Small s → Inv s
  Reach-Inv {blank} {n} h here small = Inv-start blank n h
  Reach-Inv h (later {s} r st) small =
      let g = Step-Grows st in
      let before : Small s = omega (arith, g.more, g.same, small) in
      Inv-Step (Reach-Inv h r before) before st

  Reach-capacity : {blank : A} {n : ℕ} {s : System A} → 2 ≤ n → Reach blank n s → s.mem.capacity ≡ n
  Reach-capacity {blank} {n} h here = ap (λ r. r.1.capacity) (init-eq blank n (fresh blank) h)
  Reach-capacity h (later r st) = (Step-Grows st).same ∙ Reach-capacity h r

  Small-of :
      {blank : A} {n : ℕ} {s : System A}
      → 2 ≤ n
      → Reach blank n s
      → length s.claims + n < 2 ^ 63
      → Small s
  Small-of h r small = omega (arith, Reach-capacity h r, small)

  -- After any interleaving of any number of threads in `Push` and one in `Pop`, on a queue that
  -- `Init` gave a capacity n of at least 2, the items taken so far are the first ones claimed, in
  -- claim order, and at most n claimed items are not taken yet, as long as fewer than 2^63 - n were
  -- claimed.
  pub claim_order :
      (blank : A) (n : ℕ) (s : System A)
      → 2 ≤ n
      → Reach blank n s
      → length s.claims + n < 2 ^ 63
      → (s.got ≡ take (length s.got) s.claims)
        × (length s.got ≤ length s.claims)
        × (length s.claims ≤ length s.got + n)
  claim_order blank n s h r small =
      let v = Reach-Inv h r (Small-of h r small) in
      (
        v.order,
        omega (arith, v.ahead, v.taken, v.ring.tail),
        omega (
          arith,
          low-le s.consumer v.consuming,
          v.ring.window,
          v.taken,
          v.ring.tail,
          Reach-capacity h r,
        ),
      )
    where
      low-le :
          (c : Consumer A)
          → ConsumerAgrees s.mem s.claims c
          → released s.mem.dequeue_pos c ≤ s.mem.dequeue_pos
      low-le Consumer.resting a = omega arith
      low-le (Consumer.loaded pos) a = omega arith
      low-le (Consumer.ready pos) a = omega arith
      low-le (Consumer.fetched pos x) a = omega arith
      low-le (Consumer.releasing pos) a = omega (arith, a.0)

  holding-Held :
      (q : Mpsc A) (low : ℕ) (claims : List A) (p : Producer A) (pos : ℕ)
      → ProducerAgrees q low claims p
      → holding p ≡ some pos
      → (low ≤ pos) × (pos < q.enqueue_pos) × (sequence_at q pos ≡ pos)
  holding-Held q low claims Producer.resting pos a e = cc
  holding-Held q low claims (Producer.looping x k) pos a e = cc
  holding-Held q low claims (Producer.compared x k m) pos a e = cc
  holding-Held q low claims (Producer.claimed x k) pos a e =
      subst (λ i. (low ≤ i) × (i < q.enqueue_pos) × (sequence_at q i ≡ i)) (some_inj e)
        (a.0.above, a.0.below, a.0.unpublished)
  holding-Held q low claims (Producer.written x k) pos a e =
      subst (λ i. (low ≤ i) × (i < q.enqueue_pos) × (sequence_at q i ≡ i)) (some_inj e)
        (a.0.above, a.0.below, a.0.unpublished)

  -- In every reachable state, under the conditions of `claim_order`, two different threads that
  -- have claimed the positions i and j and not published them stand at different nodes.
  pub writers_apart :
      (blank : A) (n : ℕ) (s : System A) (t u i j : ℕ)
      → 2 ≤ n
      → Reach blank n s
      → length s.claims + n < 2 ^ 63
      → t ≢ u
      → holding (s.threads t) ≡ some i
      → holding (s.threads u) ≡ some j
      → i % s.mem.capacity ≢ j % s.mem.capacity
  writers_apart blank n s t u i j h r small ne e f =
      let v = Reach-Inv h r (Small-of h r small) in
      let a = holding-Held s.mem (low_of s) s.claims (s.threads t) i (v.producing t) e in
      let b = holding-Held s.mem (low_of s) s.claims (s.threads u) j (v.producing u) f in
      apart s.mem (low_of s) s.claims v.ring i j a.0 (omega (arith, a.1, v.ring.window)) b.0
        (omega (arith, b.1, v.ring.window)) (λ k. ne (v.unique t u j (e ∙ ap some k) f))

  -- In every reachable state, under the conditions of `claim_order`, the node whose item `Pop` is
  -- about to read is not the node of a position that a thread has claimed and not published.
  pub reader_apart :
      (blank : A) (n : ℕ) (s : System A) (t i pos : ℕ)
      → 2 ≤ n
      → Reach blank n s
      → length s.claims + n < 2 ^ 63
      → holding (s.threads t) ≡ some i
      → s.consumer ≡ Consumer.ready pos
      → i % s.mem.capacity ≢ pos % s.mem.capacity
  reader_apart blank n s t i pos h r small e f =
      let v = Reach-Inv h r (Small-of h r small) in
      let a = holding-Held s.mem (low_of s) s.claims (s.threads t) i (v.producing t) e in
      let at : (pos ≡ s.mem.dequeue_pos)
          × (pos < s.mem.enqueue_pos)
          × (sequence_at s.mem pos ≡ suc pos)
          × Unit {ℓ} =
        subst (ConsumerAgrees s.mem s.claims) f v.consuming in
      apart s.mem (low_of s) s.claims v.ring i pos a.0 (omega (arith, a.1, v.ring.window))
        (omega (arith, at.0, ap (released s.mem.dequeue_pos) f))
        (omega (arith, at.1, v.ring.window))
        (λ k. omega (arith, a.2, at.2, ap (sequence_at s.mem) k))
