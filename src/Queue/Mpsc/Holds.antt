-- ===== src/Queue/Mpsc/Holds.antt =====
-- What a quiet `MPSCQueue` holds, and how `Push` and `Pop` change it.
use native.Mathlib.Nat.{add-mod_right, mod-eq_of_lt}
use scicompute.Base.{
  ℕ, suc, ◌+◌, ◌%◌, ◌^◌, ◌≤◌, ◌<◌, ◌≡◌, ◌≢◌, true, refl, sym, ap, subst, ◌∙◌, some, List, [], ◌∷◌,
  ◌++◌, arith, length, length-append, get_elem?, get_elem?-append_left, get_elem?-append_last,
  dec_lt, ℕ_discrete, add_size,
}
use scicompute.Queue.Mpsc.{Mpsc, fill, set_item, set_sequence, with_capacity}
use scicompute.Queue.Mpsc.Slots.{
  slots_apart, sequence_at, item_at, sequence_same, sequence_other, item_at-set_sequence,
  sequence_at-set_item, item_same, item_other,
}

-- No call is under way and the queue holds the items `xs`, oldest first.
pub record Holds {ℓ} {A : Type ℓ} (q : Mpsc A) (xs : List A) : Type ℓ where
  pub ready : q.allocated ≡ true
  pub two : 2 ≤ q.capacity
  pub count : q.enqueue_pos ≡ q.dequeue_pos + length xs
  pub fits : length xs ≤ q.capacity
  pub numbers :
      (k : ℕ) → k < length xs → sequence_at q (q.dequeue_pos + k) ≡ suc (q.dequeue_pos + k)
  pub items : (k : ℕ) → k < length xs → get_elem? xs k ≡ some (item_at q (q.dequeue_pos + k))
  pub free : (i : ℕ) → q.enqueue_pos ≤ i → i < q.dequeue_pos + q.capacity → sequence_at q i ≡ i

module _ {ℓ} {A : Type ℓ} (q : Mpsc A) (pos : ℕ) (x : A) where
  fill_number : pos < 2 ^ 63 → sequence_at (fill q pos x) pos ≡ suc pos
  fill_number h = sequence_same (set_item q pos x) pos (add_size pos 1) pos refl ∙ omega arith

  fill_number_other :
      (i : ℕ) → pos % q.capacity ≢ i % q.capacity → sequence_at (fill q pos x) i ≡ sequence_at q i
  unfolding set_item
  fill_number_other i n =
      sequence_other (set_item q pos x) pos (add_size pos 1) i n ∙ sequence_at-set_item q pos i x

  fill_item : item_at (fill q pos x) pos ≡ x
  fill_item =
      item_at-set_sequence (set_item q pos x) pos (add_size pos 1) pos ∙ item_same q pos pos x refl

  fill_item_other :
      (i : ℕ) → pos % q.capacity ≢ i % q.capacity → item_at (fill q pos x) i ≡ item_at q i
  fill_item_other i n =
      item_at-set_sequence (set_item q pos x) pos (add_size pos 1) i ∙ item_other q pos i x n

module _ {ℓ} {A : Type ℓ} (q : Mpsc A) where
  pub Holds-push :
      (xs : List A) (x : A)
      → Holds q xs
      → length xs < q.capacity
      → q.enqueue_pos + q.capacity < 2 ^ 63
      → Holds
          (fill (record q { enqueue_pos = add_size q.enqueue_pos 1 }) q.enqueue_pos x)
          (xs ++ x ∷ [])
  unfolding sequence_at item_at set_item set_sequence
  Holds-push xs x h room small =
      let q' : Mpsc A = record q { enqueue_pos = add_size q.enqueue_pos 1 } in
      let p = q.enqueue_pos in
      let other =
        λ (i : ℕ) (lo : q.dequeue_pos ≤ i) (hi : i < q.dequeue_pos + q.capacity) (n : p ≢ i).
          slots_apart q.capacity q.dequeue_pos p i (omega (arith, h.count)) (omega (arith, h.count))
            lo hi n in
      record {
        ready = h.ready;
        two = h.two;
        count = omega (arith, h.count, length-append xs (x ∷ []), small);
        fits = omega (arith, length-append xs (x ∷ []));
        numbers = λ k lt. elim (dec_lt k (length xs)) [
          | yes old ↦
              fill_number_other q' p x (q.dequeue_pos + k)
                (other (q.dequeue_pos + k) (omega arith) (omega arith) (omega (arith, h.count)))
              ∙ h.numbers k old
          | no new ↦
              let e : p ≡ q.dequeue_pos + k = omega (arith, h.count, length-append xs (x ∷ [])) in
              subst (λ i. sequence_at (fill q' p x) i ≡ suc i) e
                (fill_number q' p x (omega (arith, small)))
        ];
        items = λ k lt. elim (dec_lt k (length xs)) [
          | yes old ↦
              get_elem?-append_left xs (x ∷ []) k old
              ∙ h.items k old
              ∙ ap some (
                  sym (
                    fill_item_other q' p x (q.dequeue_pos + k) (
                      other (q.dequeue_pos + k) (omega arith) (omega arith)
                        (omega (arith, h.count)))))
          | no new ↦
              let e : p ≡ q.dequeue_pos + k = omega (arith, h.count, length-append xs (x ∷ [])) in
              let l : k ≡ length xs = omega (arith, length-append xs (x ∷ [])) in
              ap (get_elem? (xs ++ x ∷ [])) l
              ∙ get_elem?-append_last xs x
              ∙ ap some (sym (fill_item q' p x) ∙ ap (item_at (fill q' p x)) e)
        ];
        free = λ i a b.
            fill_number_other q' p x i
              (other i (omega (arith, h.count, small)) b (omega (arith, small)))
            ∙ h.free i (omega (arith, small)) b;
      }

  pub Holds-pop :
      (x : A) (xs : List A)
      → Holds q (x ∷ xs)
      → q.enqueue_pos + q.capacity < 2 ^ 63
      → Holds
          (set_sequence
            (record q { dequeue_pos = add_size q.dequeue_pos 1 })
            q.dequeue_pos
            (add_size q.dequeue_pos q.capacity))
          xs
  unfolding sequence_at item_at set_sequence
  Holds-pop x xs h small =
      let q' : Mpsc A = record q { dequeue_pos = add_size q.dequeue_pos 1 } in
      let d = q.dequeue_pos in
      let v = add_size d q.capacity in
      let next : add_size d 1 ≡ suc d = omega (arith, h.count, small) in
      let v-eq : v ≡ d + q.capacity = omega (arith, h.count, small) in
      let other = λ (i : ℕ) (lo : d ≤ i) (hi : i < d + q.capacity) (n : d ≢ i).
        slots_apart q.capacity d d i (omega arith) (omega (arith, h.two)) lo hi n in
      record {
        ready = h.ready;
        two = h.two;
        count = omega (arith, h.count, next);
        fits = omega (arith, h.fits);
        numbers = λ k lt.
            subst (λ i. sequence_at (set_sequence q' d v) i ≡ suc i) {x = d + suc k}
              (omega (arith, next))
              (sequence_other q' d v (d + suc k)
                  (other (d + suc k) (omega arith) (omega (arith, h.fits)) (omega arith))
                ∙ h.numbers (suc k) (omega arith));
        items = λ k lt.
            h.items (suc k) (omega arith)
            ∙ ap some (
                ap (item_at q) {x = d + suc k} (omega (arith, next))
                ∙ sym (item_at-set_sequence q' d v (add_size d 1 + k)));
        free = λ i a b. elim (ℕ_discrete i v) [
          | yes e ↦
              sequence_same q' d v i
                (sym (ap (λ n. n % q.capacity) (e ∙ v-eq) ∙ add-mod_right d q.capacity))
              ∙ sym e
          | no n ↦
              sequence_other q' d v i (
                other i (omega (arith, h.count)) (omega (arith, next, v-eq))
                  (omega (arith, h.count)))
              ∙ h.free i a (omega (arith, next, v-eq))
        ];
      }

pub Holds-start {ℓ} : {A : Type ℓ} (blank : A) (n : ℕ) → 2 ≤ n → Holds (with_capacity blank n) []
unfolding sequence_at
Holds-start blank n h = record {
  ready = refl;
  two = h;
  count = refl;
  fits = omega arith;
  numbers = λ k lt. elim lt [ ];
  items = λ k lt. elim lt [ ];
  free = λ i a b. mod-eq_of_lt {n = i} {m = n} (omega arith);
}
