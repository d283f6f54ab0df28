-- ===== src/Queue/Mpsc/Threads/Pops.antt =====
-- The steps of `Pop` keep the invariant.
use scicompute.Base.{
  ℕ, suc, ◌+◌, ◌<◌, ◌≡◌, ◌≢◌, inl, inr, refl, sym, ap, subst, ◌∙◌, some, [], ◌∷◌, ◌++◌, arith,
  length, get_elem?, take, take-suc, length-append, le_refl, dec_lt,
}
use scicompute.Queue.Mpsc.{Mpsc, set_sequence}
use scicompute.Queue.Mpsc.Slots.{
  sequence_at, item_at, item_at-set_sequence, sequence_other, sequence_mono,
}
use scicompute.Queue.Mpsc.Ring.{Ring, Ring-dequeue, Used, apart, Ring-release}
use scicompute.Queue.Mpsc.Threads.{Consumer, System}
use scicompute.Queue.Mpsc.Threads.Defs.{
  ProducerAgrees, ConsumerAgrees, low_of, released, Inv, ProducerAgrees-map,
}

module _ {ℓ} {A : Type ℓ} (s : System A) (v : Inv s) where
  -- A step that changes no memory and releases nothing.
  pub Inv-consumer :
      (c : Consumer A)
      → released s.mem.dequeue_pos c ≡ low_of s
      → ConsumerAgrees s.mem s.claims c
      → Inv (record s { consumer = c })
  Inv-consumer c e a = record {
    ring = subst (λ k. Ring s.mem k s.claims) (sym e) v.ring;
    ahead = v.ahead;
    taken = v.taken;
    order = v.order;
    producing =
        λ t. subst (λ k. ProducerAgrees s.mem k s.claims (s.threads t)) (sym e) (v.producing t);
    unique = v.unique;
    consuming = a;
  }

  -- A published head is a claimed position with its item in the slot.
  pub head_ready :
      low_of s ≡ s.mem.dequeue_pos
      → sequence_at s.mem s.mem.dequeue_pos ≡ suc s.mem.dequeue_pos
      → s.mem.dequeue_pos < s.mem.enqueue_pos
  head_ready e h = elim (dec_lt s.mem.dequeue_pos s.mem.enqueue_pos) [
    | yes p ↦ p
    | no p ↦ absurd (
        omega (
          arith,
          h,
          v.ring.two,
          v.ring.free s.mem.dequeue_pos (omega arith) (omega (arith, v.ring.two)),
        ))
  ]

  pub head_item :
      low_of s ≡ s.mem.dequeue_pos
      → s.mem.dequeue_pos < s.mem.enqueue_pos
      → sequence_at s.mem s.mem.dequeue_pos ≡ suc s.mem.dequeue_pos
      → get_elem? s.claims s.mem.dequeue_pos ≡ some (item_at s.mem s.mem.dequeue_pos)
  head_item e lt h = of (v.ring.used s.mem.dequeue_pos (omega arith) lt)
    where
      of :
          Used s.mem s.claims s.mem.dequeue_pos
          → get_elem? s.claims s.mem.dequeue_pos ≡ some (item_at s.mem s.mem.dequeue_pos)
      of (inl (u, w)) = absurd (omega arith)
      of (inr (u, g)) = g

  pub Inv-advance :
      (x : A)
      → low_of s ≡ s.mem.dequeue_pos
      → s.mem.dequeue_pos < s.mem.enqueue_pos
      → sequence_at s.mem s.mem.dequeue_pos ≡ suc s.mem.dequeue_pos
      → get_elem? s.claims s.mem.dequeue_pos ≡ some x
      → Inv (record s {
        mem = record (s.mem) { dequeue_pos = suc s.mem.dequeue_pos };
        consumer = Consumer.releasing s.mem.dequeue_pos;
        got = s.got ++ x ∷ [];
      })
  unfolding sequence_at item_at
  Inv-advance x e lt h g =
      let q' : Mpsc A = record (s.mem) { dequeue_pos = suc s.mem.dequeue_pos } in
      record {
        ring =
            Ring-dequeue s.mem (suc s.mem.dequeue_pos) s.mem.dequeue_pos s.claims
              (subst (λ k. Ring s.mem k s.claims) e v.ring);
        ahead = lt;
        taken = omega (arith, v.taken, length-append s.got (x ∷ []));
        order =
            ap (λ xs. xs ++ x ∷ []) v.order
            ∙ sym (take-suc (length s.got) s.claims x (ap (get_elem? s.claims) (sym v.taken) ∙ g))
            ∙ ap (λ n. take n s.claims) {x = suc (length s.got)}
                (omega (arith, length-append s.got (x ∷ [])));
        producing = λ t.
            ProducerAgrees-map s.mem q' (low_of s) s.mem.dequeue_pos s.claims s.claims (s.threads t)
              (le_refl s.mem.enqueue_pos) (λ i. le_refl (sequence_at s.mem i))
              (λ y k f a. (
                record {
                  above = omega (arith, a.above);
                  below = a.below;
                  unpublished = a.unpublished;
                  owed = a.owed;
                },
                refl,
              ))
              (v.producing t);
        unique = v.unique;
        consuming = (refl, h, tt);
      }

  pub Inv-release :
      (pos : ℕ)
      → s.consumer ≡ Consumer.releasing pos
      → Inv (record s {
        mem = set_sequence s.mem pos (pos + s.mem.capacity);
        consumer = Consumer.resting;
      })
  unfolding set_sequence
  Inv-release pos e =
      let q = s.mem in
      let q' = set_sequence s.mem pos (pos + s.mem.capacity) in
      let low-eq : low_of s ≡ pos = ap (released s.mem.dequeue_pos) e in
      let at : (suc pos ≡ q.dequeue_pos) × (sequence_at q pos ≡ suc pos) × Unit {ℓ} =
        subst (ConsumerAgrees q s.claims) e v.consuming in
      record {
        ring =
            subst (λ k. Ring q' k s.claims) at.0
              (Ring-release q pos s.claims (subst (λ k. Ring q k s.claims) low-eq v.ring)
                (omega (arith, at.0, v.ahead)));
        ahead = v.ahead;
        taken = v.taken;
        order = v.order;
        producing = λ t.
            ProducerAgrees-map q q' (low_of s) q.dequeue_pos s.claims s.claims (s.threads t)
              (le_refl q.enqueue_pos)
              (λ i. sequence_mono q pos (pos + q.capacity) i (omega (arith, at.1, v.ring.two)))
              (λ y k f a.
                let ne : pos ≢ k = λ j. omega (arith, at.1, a.unpublished, ap (sequence_at q) j) in
                (
                  record {
                    above = omega (arith, a.above, at.0, ne);
                    below = a.below;
                    unpublished =
                        sequence_other q pos (pos + q.capacity) k (
                          apart q (low_of s) s.claims v.ring pos k (omega (arith, low-eq))
                            (omega (arith, low-eq, v.ring.two)) a.above
                            (omega (arith, a.below, v.ring.window)) ne)
                        ∙ a.unpublished;
                    owed = a.owed;
                  },
                  item_at-set_sequence q pos (pos + q.capacity) k,
                ))
              (v.producing t);
        unique = v.unique;
        consuming = tt;
      }
