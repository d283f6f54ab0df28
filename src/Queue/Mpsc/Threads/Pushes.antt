-- ===== src/Queue/Mpsc/Threads/Pushes.antt =====
-- The steps of `Push` keep the invariant.
use scicompute.Base.{
  ℕ, suc, ◌%◌, ◌≤◌, ◌<◌, ◌≡◌, ◌≢◌, refl, sym, ap, subst, ◌∙◌, some, none, [], ◌∷◌, ◌++◌, arith,
  length, get_elem?, get_elem?-append_left, get_elem?-append_last, take-append_left, some_inj,
  le_refl, le_of_eq,
}
use scicompute.Queue.Mpsc.{Mpsc, update, set_item, set_sequence}
use scicompute.Queue.Mpsc.Slots.{
  sequence_at, item_at, sequence_at-set_item, item_at-set_sequence, item_same, item_other,
  sequence_other, sequence_mono,
}
use scicompute.Queue.Mpsc.Ring.{apart, others, claim_room, Ring-claim, Ring-write, Ring-publish}
use scicompute.Queue.Mpsc.Threads.{Producer, Consumer, System, at}
use scicompute.Queue.Mpsc.Threads.Defs.{
  Held, ProducerAgrees, ConsumerAgrees, low_of, released, holding, Inv, update_all, unique_update,
  ProducerAgrees-map,
}

module _ {ℓ} {A : Type ℓ} (s : System A) (v : Inv s) (t : ℕ) where
  -- A step that changes no memory and claims nothing.
  pub Inv-local :
      (p : Producer A)
      → holding p ≡ none
      → ProducerAgrees s.mem (low_of s) s.claims p
      → Inv (at s t p)
  Inv-local p h a = record {
    ring = v.ring;
    ahead = v.ahead;
    taken = v.taken;
    order = v.order;
    producing =
        update_all (ProducerAgrees s.mem (low_of s) s.claims) s.threads t p (λ u n. v.producing u)
          a;
    unique = unique_update s.threads t p v.unique (λ u pos n e f. cc);
    consuming = v.consuming;
  }

  ConsumerAgrees-claim :
      (x : A) (c : Consumer A)
      → ConsumerAgrees s.mem s.claims c
      → s.mem.enqueue_pos ≡ length s.claims
      → ConsumerAgrees
          (record (s.mem) { enqueue_pos = suc s.mem.enqueue_pos })
          (s.claims ++ x ∷ [])
          c
  unfolding sequence_at
  ConsumerAgrees-claim x Consumer.resting h e = tt
  ConsumerAgrees-claim x (Consumer.loaded pos) h e = h
  ConsumerAgrees-claim x (Consumer.ready pos) h e = (h.0, omega (arith, h.1), h.2, tt)
  ConsumerAgrees-claim x (Consumer.fetched pos y) h e = (
    h.0,
    omega (arith, h.1),
    h.2,
    get_elem?-append_left s.claims (x ∷ []) pos (omega (arith, h.1)) ∙ h.3,
  )
  ConsumerAgrees-claim x (Consumer.releasing pos) h e = h

  -- The compare-exchange succeeds on a position that the node's number has reached.
  pub Inv-claim :
      (x : A)
      → s.mem.enqueue_pos ≤ sequence_at s.mem s.mem.enqueue_pos
      → Inv (record s {
        mem = record (s.mem) { enqueue_pos = suc s.mem.enqueue_pos };
        threads = update s.threads t (Producer.claimed x s.mem.enqueue_pos);
        claims = s.claims ++ x ∷ [];
      })
  unfolding sequence_at item_at
  Inv-claim x h =
      let q = s.mem in
      let q' : Mpsc A = record (s.mem) { enqueue_pos = suc s.mem.enqueue_pos } in
      let low = low_of s in
      let room = claim_room q low s.claims v.ring h in
      let tail : q.enqueue_pos ≡ length s.claims = v.ring.tail in
      record {
        ring = Ring-claim q low s.claims v.ring x room;
        ahead = omega (arith, v.ahead);
        taken = v.taken;
        order =
            v.order
            ∙ sym (
                take-append_left (length s.got) s.claims (x ∷ [])
                  (omega (arith, v.ahead, v.taken)));
        producing =
            update_all (ProducerAgrees q' low (s.claims ++ x ∷ [])) s.threads t
              (Producer.claimed x q.enqueue_pos)
              (λ u n.
                ProducerAgrees-map q q' low low s.claims (s.claims ++ x ∷ []) (s.threads u)
                  (omega arith) (λ i. le_refl (sequence_at q i))
                  (λ y pos e k. (
                    record {
                      above = k.above;
                      below = omega (arith, k.below);
                      unpublished = k.unpublished;
                      owed =
                          get_elem?-append_left s.claims (x ∷ []) pos (omega (arith, k.below))
                          ∙ k.owed;
                    },
                    refl,
                  ))
                  (v.producing u))
              (
                record {
                  above = v.ring.ordered;
                  below = omega arith;
                  unpublished = v.ring.free q.enqueue_pos (omega arith) room;
                  owed =
                      ap (get_elem? (s.claims ++ x ∷ [])) tail ∙ get_elem?-append_last s.claims x;
                },
                tt,
              );
        unique =
            unique_update s.threads t (Producer.claimed x q.enqueue_pos) v.unique
              (λ u pos n e f. holding_below u pos f (some_inj e));
        consuming = ConsumerAgrees-claim x s.consumer v.consuming tail;
      }
    where
      below_of :
          (p : Producer A) (pos : ℕ)
          → ProducerAgrees s.mem (low_of s) s.claims p
          → holding p ≡ some pos
          → pos < s.mem.enqueue_pos
      below_of Producer.resting pos a e = cc
      below_of (Producer.looping y k) pos a e = cc
      below_of (Producer.compared y k m) pos a e = cc
      below_of (Producer.claimed y k) pos a e = omega (arith, a.0.below, some_inj e)
      below_of (Producer.written y k) pos a e = omega (arith, a.0.below, some_inj e)

      holding_below : (u pos : ℕ) → holding (s.threads u) ≡ some pos → s.mem.enqueue_pos ≡ pos → ⊥
      holding_below u pos e f = omega (arith, below_of (s.threads u) pos (v.producing u) e)

  ConsumerAgrees-set_item :
      (p : ℕ) (x : A) (c : Consumer A)
      → ConsumerAgrees s.mem s.claims c
      → ConsumerAgrees (set_item s.mem p x) s.claims c
  unfolding set_item
  ConsumerAgrees-set_item p x Consumer.resting h = tt
  ConsumerAgrees-set_item p x (Consumer.loaded pos) h = h
  ConsumerAgrees-set_item p x (Consumer.ready pos) h =
      (h.0, h.1, sequence_at-set_item s.mem p pos x ∙ h.2, tt)
  ConsumerAgrees-set_item p x (Consumer.fetched pos y) h =
      (h.0, h.1, sequence_at-set_item s.mem p pos x ∙ h.2, h.3)
  ConsumerAgrees-set_item p x (Consumer.releasing pos) h =
      (h.0, sequence_at-set_item s.mem p pos x ∙ h.1, tt)

  -- Two threads hold different positions, which have different slots.
  Held-apart :
      (u i j : ℕ) (x y : A)
      → t ≢ u
      → holding (s.threads t) ≡ some i
      → holding (s.threads u) ≡ some j
      → Held s.mem (low_of s) s.claims x i
      → Held s.mem (low_of s) s.claims y j
      → i % s.mem.capacity ≢ j % s.mem.capacity
  Held-apart u i j x y n ht hu a b =
      apart s.mem (low_of s) s.claims v.ring i j a.above (omega (arith, a.below, v.ring.window))
        b.above (omega (arith, b.below, v.ring.window))
        (λ e. n (v.unique t u j (ht ∙ ap some e) hu))

  pub Inv-write :
      (x : A) (pos : ℕ)
      → s.threads t ≡ Producer.claimed x pos
      → Inv (record s {
        mem = set_item s.mem pos x;
        threads = update s.threads t (Producer.written x pos);
      })
  unfolding set_item
  Inv-write x pos e =
      let q = s.mem in
      let q' = set_item s.mem pos x in
      let low = low_of s in
      let mine = subst (ProducerAgrees q low s.claims) e (v.producing t) in
      let held : Held q low s.claims x pos = mine.0 in
      record {
        ring = Ring-write q low s.claims v.ring pos x held.above held.below held.unpublished;
        ahead = v.ahead;
        taken = v.taken;
        order = v.order;
        producing =
            update_all (ProducerAgrees q' low s.claims) s.threads t (Producer.written x pos)
              (λ u n.
                ProducerAgrees-map q q' low low s.claims s.claims (s.threads u)
                  (le_refl q.enqueue_pos) (λ i. le_of_eq (sym (sequence_at-set_item q pos i x)))
                  (λ y k f a. (
                    record {
                      above = a.above;
                      below = a.below;
                      unpublished = sequence_at-set_item q pos k x ∙ a.unpublished;
                      owed = a.owed;
                    },
                    item_other q pos k x (Held-apart u pos k x y n (ap holding e) f held a),
                  ))
                  (v.producing u))
              (
                record {
                  above = held.above;
                  below = held.below;
                  unpublished = sequence_at-set_item q pos pos x ∙ held.unpublished;
                  owed = held.owed;
                },
                item_same q pos pos x refl,
              );
        unique =
            unique_update s.threads t (Producer.written x pos) v.unique
              (λ u k n f g. n (v.unique t u k (ap holding e ∙ f) g));
        consuming = ConsumerAgrees-set_item pos x s.consumer v.consuming;
      }

  -- A published position of the window keeps its number when another one is published.
  published :
      (p pos : ℕ) (x : A)
      → low_of s ≤ pos
      → pos < s.mem.enqueue_pos
      → Held s.mem (low_of s) s.claims x p
      → sequence_at s.mem pos ≡ suc pos
      → sequence_at (set_sequence s.mem p (suc p)) pos ≡ suc pos
  published p pos x lo hi a e =
      others s.mem (low_of s) s.claims v.ring p (suc p) pos a.above
        (omega (arith, a.below, v.ring.window)) lo (omega (arith, v.ring.window))
        (λ k. omega (arith, e, a.unpublished, ap (sequence_at s.mem) k))
      ∙ e

  -- Publishing a position leaves the slot that the consumer is at alone.
  ConsumerAgrees-publish :
      (p : ℕ) (x : A) (c : Consumer A)
      → s.consumer ≡ c
      → Held s.mem (low_of s) s.claims x p
      → ConsumerAgrees s.mem s.claims c
      → ConsumerAgrees (set_sequence s.mem p (suc p)) s.claims c
  unfolding set_sequence
  ConsumerAgrees-publish p x Consumer.resting e a h = tt
  ConsumerAgrees-publish p x (Consumer.loaded pos) e a h = h
  ConsumerAgrees-publish p x (Consumer.ready pos) e a h = (
    h.0,
    h.1,
    published p pos x (omega (arith, h.0, ap (released s.mem.dequeue_pos) e)) (omega (arith, h.1)) a
        h.2,
    tt,
  )
  ConsumerAgrees-publish p x (Consumer.fetched pos y) e a h = (
    h.0,
    h.1,
    published p pos x (omega (arith, h.0, ap (released s.mem.dequeue_pos) e)) (omega (arith, h.1)) a
        h.2,
    h.3,
  )
  ConsumerAgrees-publish p x (Consumer.releasing pos) e a h = (
    h.0,
    published p pos x (omega (arith, h.0, ap (released s.mem.dequeue_pos) e))
        (omega (arith, h.0, v.ahead)) a h.1,
    tt,
  )

  pub Inv-publish :
      (x : A) (pos : ℕ)
      → s.threads t ≡ Producer.written x pos
      → Inv (record s {
        mem = set_sequence s.mem pos (suc pos);
        threads = update s.threads t Producer.resting;
      })
  unfolding set_sequence
  Inv-publish x pos e =
      let q = s.mem in
      let q' = set_sequence s.mem pos (suc pos) in
      let low = low_of s in
      let mine : Held q low s.claims x pos × (item_at q pos ≡ x) =
        subst (ProducerAgrees q low s.claims) e (v.producing t) in
      let held = mine.0 in
      record {
        ring =
            Ring-publish q low s.claims v.ring pos held.above held.below
              (held.owed ∙ ap some (sym mine.1));
        ahead = v.ahead;
        taken = v.taken;
        order = v.order;
        producing =
            update_all (ProducerAgrees q' low s.claims) s.threads t Producer.resting
              (λ u n.
                ProducerAgrees-map q q' low low s.claims s.claims (s.threads u)
                  (le_refl q.enqueue_pos)
                  (λ i. sequence_mono q pos (suc pos) i (omega (arith, held.unpublished)))
                  (λ y k f a. (
                    record {
                      above = a.above;
                      below = a.below;
                      unpublished =
                          sequence_other q pos (suc pos) k
                            (Held-apart u pos k x y n (ap holding e) f held a)
                          ∙ a.unpublished;
                      owed = a.owed;
                    },
                    item_at-set_sequence q pos (suc pos) k,
                  ))
                  (v.producing u))
              tt;
        unique = unique_update s.threads t Producer.resting v.unique (λ u k n f g. cc);
        consuming = ConsumerAgrees-publish pos x s.consumer refl held v.consuming;
      }
