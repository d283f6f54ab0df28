-- ===== src/Queue/Mpsc/Threads/Steps.antt =====
-- Every step keeps the invariant, as long as the positions stay below 2^63.
use scicompute.Base.{
  le_refl, get_elem?, ℕ, suc, ◌+◌, ◌^◌, ◌≤◌, ◌<◌, ◌≡◌, true, refl, sym, ap, subst, ◌∙◌, some, [],
  ◌∷◌, ◌++◌, arith, length, ==_iff, add_size,
}
use scicompute.Base.Int.{is_zero-diff}
use scicompute.Queue.Mpsc.{update, set_sequence, difference_is_zero}
use scicompute.Queue.Mpsc.Slots.{sequence_at, item_at}
use scicompute.Queue.Mpsc.Threads.{
  Producer, Consumer, System, at, Step, push_load, push_sequence, push_claim, push_retry, push_full,
  push_reload, push_write, push_publish, pop_load, pop_empty, pop_ready, pop_fetch, pop_advance,
  pop_release,
}
use scicompute.Queue.Mpsc.Threads.Defs.{Held, ProducerAgrees, ConsumerAgrees, low_of, released, Inv}
use scicompute.Queue.Mpsc.Threads.Pushes.{Inv-local, Inv-claim, Inv-write, Inv-publish}
use scicompute.Queue.Mpsc.Threads.Pops.{
  Inv-consumer, head_ready, head_item, Inv-advance, Inv-release,
}

-- The signed reading is exact where positions and sequence numbers are below 2^63.
difference_zero : (a b : ℕ) → a < 2 ^ 63 → b < 2 ^ 63 → difference_is_zero a b ≡ true → a ≡ b
difference_zero a b h k e = (==_iff a b).0 (sym (is_zero-diff a b h k) ∙ e)

module _ {ℓ} {A : Type ℓ} where
  -- So many items have been claimed that no position reaches 2^63.
  abbrev pub Small : System A → Type 0
  Small s = length s.claims + s.mem.capacity < 2 ^ 63

  module _ (s : System A) (v : Inv s) (small : Small s) where
    sequence_small : (i : ℕ) → sequence_at s.mem i < 2 ^ 63
    sequence_small i = omega (arith, v.ring.bound i, v.ring.tail)

    step_claim :
        (t : ℕ) (x : A) (pos sequence : ℕ)
        → s.threads t ≡ Producer.compared x pos sequence
        → difference_is_zero sequence pos ≡ true
        → s.mem.enqueue_pos ≡ pos
        → Inv (record s {
          mem = record (s.mem) { enqueue_pos = add_size pos 1 };
          threads = update s.threads t (Producer.claimed x pos);
          claims = s.claims ++ x ∷ [];
        })
    step_claim t x pos sq e z p =
        let mine : (pos ≤ s.mem.enqueue_pos) × (sq ≤ sequence_at s.mem pos) × Unit {ℓ} =
          subst (ProducerAgrees s.mem (low_of s) s.claims) e (v.producing t) in
        let sq-eq : sq ≡ pos =
          difference_zero sq pos (omega (arith, mine.1, sequence_small pos))
            (omega (arith, v.ring.tail, small)) z in
        subst
          (λ k. Inv (record s {
            mem = record (s.mem) { enqueue_pos = k };
            threads = update s.threads t (Producer.claimed x pos);
            claims = s.claims ++ x ∷ [];
          }))
          (omega (arith, v.ring.tail, small))
          (subst
            (λ k. Inv (record s {
              mem = record (s.mem) { enqueue_pos = suc s.mem.enqueue_pos };
              threads = update s.threads t (Producer.claimed x k);
              claims = s.claims ++ x ∷ [];
            }))
            p (Inv-claim s v t x (omega (arith, mine.1, ap (sequence_at s.mem) p))))

    step_publish :
        (t : ℕ) (x : A) (pos : ℕ)
        → s.threads t ≡ Producer.written x pos
        → Inv (record s {
          mem = set_sequence s.mem pos (add_size pos 1);
          threads = update s.threads t Producer.resting;
        })
    step_publish t x pos e =
        let mine : Held s.mem (low_of s) s.claims x pos × (item_at s.mem pos ≡ x) =
          subst (ProducerAgrees s.mem (low_of s) s.claims) e (v.producing t) in
        subst
          (λ k. Inv (record s {
            mem = set_sequence s.mem pos k;
            threads = update s.threads t Producer.resting;
          }))
          (omega (arith, mine.0.below, v.ring.tail, small)) (Inv-publish s v t x pos e)

    step_ready :
        (pos : ℕ)
        → s.consumer ≡ Consumer.loaded pos
        → difference_is_zero (sequence_at s.mem pos) (add_size pos 1) ≡ true
        → Inv (record s { consumer = Consumer.ready pos })
    step_ready pos e z =
        let mine : (pos ≡ s.mem.dequeue_pos) × Unit {ℓ} =
          subst (ConsumerAgrees s.mem s.claims) e v.consuming in
        let low-eq : low_of s ≡ s.mem.dequeue_pos = ap (released s.mem.dequeue_pos) e in
        let sq-eq : sequence_at s.mem pos ≡ suc pos =
          difference_zero (sequence_at s.mem pos) (add_size pos 1) (sequence_small pos)
            (omega (arith, mine.0, v.ahead, v.ring.tail, v.ring.two, small)) z
          ∙ omega (arith, mine.0, v.ahead, v.ring.tail, small) in
        let head : sequence_at s.mem s.mem.dequeue_pos ≡ suc s.mem.dequeue_pos =
          subst (λ k. sequence_at s.mem k ≡ suc k) mine.0 sq-eq in
        Inv-consumer s v (Consumer.ready pos) (sym low-eq)
          (mine.0, omega (arith, mine.0, head_ready s v low-eq head), sq-eq, tt)

    step_fetch :
        (pos : ℕ)
        → s.consumer ≡ Consumer.ready pos
        → Inv (record s { consumer = Consumer.fetched pos (item_at s.mem pos) })
    step_fetch pos e =
        let mine : (pos ≡ s.mem.dequeue_pos)
            × (pos < s.mem.enqueue_pos)
            × (sequence_at s.mem pos ≡ suc pos)
            × Unit {ℓ} =
          subst (ConsumerAgrees s.mem s.claims) e v.consuming in
        let low-eq : low_of s ≡ s.mem.dequeue_pos = ap (released s.mem.dequeue_pos) e in
        let D = s.mem.dequeue_pos in
        let owed : get_elem? s.claims D ≡ some (item_at s.mem D) =
          head_item s v low-eq (omega (arith, mine.0, mine.1))
            (subst (λ k. sequence_at s.mem k ≡ suc k) mine.0 mine.2) in
        Inv-consumer s v (Consumer.fetched pos (item_at s.mem pos)) (sym low-eq) (
          mine.0,
          mine.1,
          mine.2,
          subst (λ k. get_elem? s.claims k ≡ some (item_at s.mem k)) (sym mine.0) owed,
        )

    step_advance :
        (pos : ℕ) (x : A)
        → s.consumer ≡ Consumer.fetched pos x
        → Inv (record s {
          mem = record (s.mem) { dequeue_pos = add_size pos 1 };
          consumer = Consumer.releasing pos;
          got = s.got ++ x ∷ [];
        })
    step_advance pos x e =
        let mine : (pos ≡ s.mem.dequeue_pos)
            × (pos < s.mem.enqueue_pos)
            × (sequence_at s.mem pos ≡ suc pos)
            × (get_elem? s.claims pos ≡ some x) =
          subst (ConsumerAgrees s.mem s.claims) e v.consuming in
        let low-eq : low_of s ≡ s.mem.dequeue_pos = ap (released s.mem.dequeue_pos) e in
        subst
          (λ k. Inv (record s {
            mem = record (s.mem) { dequeue_pos = k };
            consumer = Consumer.releasing pos;
            got = s.got ++ x ∷ [];
          }))
          (omega (arith, mine.0, mine.1, v.ring.tail, small))
          (subst
            (λ k. Inv (record s {
              mem = record (s.mem) { dequeue_pos = suc s.mem.dequeue_pos };
              consumer = Consumer.releasing k;
              got = s.got ++ x ∷ [];
            }))
            (sym mine.0)
            (Inv-advance s v x low-eq (omega (arith, mine.0, mine.1))
              (subst (λ k. sequence_at s.mem k ≡ suc k) mine.0 mine.2)
              (subst (λ k. get_elem? s.claims k ≡ some x) mine.0 mine.3)))

    step_release :
        (pos : ℕ)
        → s.consumer ≡ Consumer.releasing pos
        → Inv (record s {
          mem = set_sequence s.mem pos (add_size pos s.mem.capacity);
          consumer = Consumer.resting;
        })
    step_release pos e =
        let mine : (suc pos ≡ s.mem.dequeue_pos) × (sequence_at s.mem pos ≡ suc pos) × Unit {ℓ} =
          subst (ConsumerAgrees s.mem s.claims) e v.consuming in
        subst (λ k. Inv (record s { mem = set_sequence s.mem pos k; consumer = Consumer.resting }))
          (omega (arith, mine.0, v.ahead, v.ring.tail, small)) (Inv-release s v pos e)

    retry : (t : ℕ) (x : A) → Inv (at s t (Producer.looping x s.mem.enqueue_pos))
    retry t x =
        Inv-local s v t (Producer.looping x s.mem.enqueue_pos) refl (le_refl s.mem.enqueue_pos, tt)

    rest_consumer :
        (pos : ℕ)
        → s.consumer ≡ Consumer.loaded pos
        → Inv (record s { consumer = Consumer.resting })
    rest_consumer pos e =
        Inv-consumer s v Consumer.resting (sym (ap (released s.mem.dequeue_pos) e)) tt

  pub Inv-Step : {s t : System A} → Inv s → Small s → Step s t → Inv t
  unfolding sequence_at item_at
  Inv-Step {s} v small (push_load t x e a) = retry s v small t x
  Inv-Step {s} v small (push_sequence t x pos e) =
      let mine = subst (ProducerAgrees s.mem (low_of s) s.claims) e (v.producing t) in
      Inv-local s v t (Producer.compared x pos (sequence_at s.mem pos)) refl
        (mine.0, le_refl (sequence_at s.mem pos), tt)
  Inv-Step {s} v small (push_claim t x pos sq e z p) = step_claim s v small t x pos sq e z p
  Inv-Step {s} v small (push_retry t x pos sq e z) = retry s v small t x
  Inv-Step {s} v small (push_full t x pos sq e z n) = Inv-local s v t Producer.resting refl tt
  Inv-Step {s} v small (push_reload t x pos sq e z n) = retry s v small t x
  Inv-Step {s} v small (push_write t x pos e) = Inv-write s v t x pos e
  Inv-Step {s} v small (push_publish t x pos e) = step_publish s v small t x pos e
  Inv-Step {s} v small (pop_load e a) =
      Inv-consumer s v (Consumer.loaded s.mem.dequeue_pos) (sym (ap (released s.mem.dequeue_pos) e))
        (refl, tt)
  Inv-Step {s} v small (pop_empty pos e z) = rest_consumer s v small pos e
  Inv-Step {s} v small (pop_ready pos e z) = step_ready s v small pos e z
  Inv-Step {s} v small (pop_fetch pos e) = step_fetch s v small pos e
  Inv-Step {s} v small (pop_advance pos x e) = step_advance s v small pos x e
  Inv-Step {s} v small (pop_release pos e) = step_release s v small pos e
