-- ===== src/Queue/Mpsc/Ring.antt =====
-- The ring part of the invariant of `MPSCQueue`, and how claiming, publishing and releasing keep
-- it. `low` is the first position that is not released, `claims` the items in claim order.
use native.Mathlib.Nat.{add-mod_right}
use scicompute.Base.{
  ℕ, suc, ◌+◌, ◌%◌, ◌≤◌, ◌<◌, ◌≡◌, ◌≢◌, ◌⊎◌, inl, inr, sym, ap, subst, ◌∙◌, arith, dec_lt,
  ℕ_discrete, List, [], ◌∷◌, ◌++◌, some, length, get_elem?, length-append, get_elem?-append_left,
}
use scicompute.Queue.Mpsc.{Mpsc, set_item, set_sequence}
use scicompute.Queue.Mpsc.Slots.{
  slots_apart, sequence_at, item_at, sequence_same, sequence_other, item_at-set_sequence,
  sequence_at-set_item, item_other,
}

-- The state of a claimed position: not yet published, or published with its item.
abbrev pub Used {ℓ} : {A : Type ℓ} → Mpsc A → List A → ℕ → Type ℓ
Used q claims i =
    ((sequence_at q i ≡ i) × Unit {ℓ})
    ⊎ ((sequence_at q i ≡ suc i) × (get_elem? claims i ≡ some (item_at q i)))

pub record Ring {ℓ} {A : Type ℓ} (q : Mpsc A) (low : ℕ) (claims : List A) : Type ℓ where
  pub two : 2 ≤ q.capacity
  pub tail : q.enqueue_pos ≡ length claims
  pub ordered : low ≤ q.enqueue_pos
  pub window : q.enqueue_pos ≤ low + q.capacity
  pub bound : (i : ℕ) → sequence_at q i ≤ q.enqueue_pos + q.capacity
  pub free : (i : ℕ) → q.enqueue_pos ≤ i → i < low + q.capacity → sequence_at q i ≡ i
  pub used : (i : ℕ) → low ≤ i → i < q.enqueue_pos → Used q claims i

module _ {ℓ} {A : Type ℓ} where
  -- A claimed position keeps its state where its number and item stay.
  pub Used-map :
      (q q' : Mpsc A) (claims : List A) (i : ℕ)
      → sequence_at q' i ≡ sequence_at q i
      → item_at q' i ≡ item_at q i
      → Used q claims i
      → Used q' claims i
  Used-map q q' claims i es ei (inl (e, u)) = inl (es ∙ e, u)
  Used-map q q' claims i es ei (inr (e, g)) = inr (es ∙ e, g ∙ ap some (sym ei))

  Used-append :
      (q : Mpsc A) (claims : List A) (x : A) (i : ℕ)
      → i < length claims
      → Used q claims i
      → Used q (claims ++ x ∷ []) i
  Used-append q claims x i lt (inl u) = inl u
  Used-append q claims x i lt (inr (e, g)) = inr (e, get_elem?-append_left claims (x ∷ []) i lt ∙ g)

  -- The number of an unpublished position says so.
  Used-suc : (q : Mpsc A) (claims : List A) (i : ℕ) → Used q claims i → sequence_at q i ≤ suc i
  Used-suc q claims i (inl (e, u)) = omega arith
  Used-suc q claims i (inr (e, g)) = omega arith

  -- The dequeue position plays no part.
  pub Ring-dequeue :
      (q : Mpsc A) (d low : ℕ) (claims : List A)
      → Ring q low claims
      → Ring (record q { dequeue_pos = d }) low claims
  unfolding sequence_at item_at
  Ring-dequeue q d low claims r = record {
    two = r.two;
    tail = r.tail;
    ordered = r.ordered;
    window = r.window;
    bound = r.bound;
    free = r.free;
    used = r.used;
  }

module _ {ℓ} {A : Type ℓ} (q : Mpsc A) (low : ℕ) (claims : List A) (r : Ring q low claims) where
  -- The positions of one window have slots of their own.
  pub apart :
      (i j : ℕ)
      → low ≤ i
      → i < low + q.capacity
      → low ≤ j
      → j < low + q.capacity
      → i ≢ j
      → i % q.capacity ≢ j % q.capacity
  apart = slots_apart q.capacity low

  slot-low : sequence_at q (low + q.capacity) ≡ sequence_at q low
  unfolding sequence_at
  slot-low = ap (λ k. (q.pool k).sequence) (add-mod_right low q.capacity)

  -- A node whose number has reached the tail position belongs to a free slot.
  pub claim_room : q.enqueue_pos ≤ sequence_at q q.enqueue_pos → q.enqueue_pos < low + q.capacity
  claim_room h = elim (dec_lt q.enqueue_pos (low + q.capacity)) [
    | yes p ↦ p
    | no p ↦
        let e : q.enqueue_pos ≡ low + q.capacity = omega (arith, r.window) in
        absurd (
          omega (
            arith,
            r.two,
            Used-suc q claims low (r.used low (omega arith) (omega (arith, r.two))),
            slot-low,
            ap (sequence_at q) e,
          ))
  ]

  pub Ring-claim :
      (x : A)
      → q.enqueue_pos < low + q.capacity
      → Ring (record q { enqueue_pos = suc q.enqueue_pos }) low (claims ++ x ∷ [])
  unfolding sequence_at item_at
  Ring-claim x h = record {
    two = r.two;
    tail = omega (arith, r.tail, length-append claims (x ∷ []));
    ordered = omega (arith, r.ordered);
    window = h;
    bound = λ i. omega (arith, r.bound i);
    free = λ i a b. r.free i (omega arith) b;
    used = λ i a b. elim (ℕ_discrete i q.enqueue_pos) [
      | yes e ↦ inl (r.free i (omega arith) (omega arith), tt)
      | no n ↦ Used-append q claims x i (omega (arith, r.tail)) (r.used i a (omega arith))
    ];
  }

  -- Writing the item of a position that is claimed and not published.
  pub Ring-write :
      (p : ℕ) (x : A)
      → low ≤ p
      → p < q.enqueue_pos
      → sequence_at q p ≡ p
      → Ring (set_item q p x) low claims
  unfolding set_item
  Ring-write p x a b c = record {
    two = r.two;
    tail = r.tail;
    ordered = r.ordered;
    window = r.window;
    bound = λ i. omega (arith, r.bound i, sequence_at-set_item q p i x);
    free = λ i d e. sequence_at-set_item q p i x ∙ r.free i d e;
    used = λ i d e. elim (ℕ_discrete p i) [
      | yes k ↦ inl (sequence_at-set_item q p i x ∙ subst (λ n. sequence_at q n ≡ n) k c, tt)
      | no n ↦
          Used-map q (set_item q p x) claims i (sequence_at-set_item q p i x)
            (item_other q p i x
              (apart p i a (omega (arith, r.window)) d (omega (arith, r.window)) n))
            (r.used i d e)
    ];
  }

  -- Raising the number of one position leaves the others in the window alone.
  pub others :
      (p v i : ℕ)
      → low ≤ p
      → p < low + q.capacity
      → low ≤ i
      → i < low + q.capacity
      → p ≢ i
      → sequence_at (set_sequence q p v) i ≡ sequence_at q i
  others p v i a b c d n = sequence_other q p v i (apart p i a b c d n)

  bound_of :
      (p v top : ℕ)
      → v ≤ top
      → q.enqueue_pos + q.capacity ≤ top
      → (i : ℕ) → sequence_at (set_sequence q p v) i ≤ top
  bound_of p v top h k i = elim (ℕ_discrete (p % q.capacity) (i % q.capacity)) [
    | yes e ↦ omega (arith, sequence_same q p v i e)
    | no n ↦ omega (arith, sequence_other q p v i n, r.bound i)
  ]

  pub Ring-publish :
      (p : ℕ)
      → low ≤ p
      → p < q.enqueue_pos
      → get_elem? claims p ≡ some (item_at q p)
      → Ring (set_sequence q p (suc p)) low claims
  unfolding set_sequence
  Ring-publish p a b d = record {
    two = r.two;
    tail = r.tail;
    ordered = r.ordered;
    window = r.window;
    bound = bound_of p (suc p) (q.enqueue_pos + q.capacity) (omega arith) (omega arith);
    free = λ i e f.
        others p (suc p) i a (omega (arith, r.window)) (omega (arith, r.ordered)) f (omega arith)
        ∙ r.free i e f;
    used = λ i e f. elim (ℕ_discrete p i) [
      | yes k ↦ inr (
        sequence_same q p (suc p) i (ap (λ n. n % q.capacity) k) ∙ ap suc k,
        ap (get_elem? claims) (sym k)
            ∙ d
            ∙ ap some (ap (item_at q) k ∙ sym (item_at-set_sequence q p (suc p) i)),
      )
      | no n ↦
          Used-map q (set_sequence q p (suc p)) claims i
            (others p (suc p) i a (omega (arith, r.window)) e (omega (arith, r.window)) n)
            (item_at-set_sequence q p (suc p) i) (r.used i e f)
    ];
  }

  pub Ring-release :
      low < q.enqueue_pos → Ring (set_sequence q low (low + q.capacity)) (suc low) claims
  unfolding set_sequence
  Ring-release a = record {
    two = r.two;
    tail = r.tail;
    ordered = a;
    window = omega (arith, r.window);
    bound =
        bound_of low (low + q.capacity) (q.enqueue_pos + q.capacity) (omega arith) (omega arith);
    free = λ i e f. elim (ℕ_discrete i (low + q.capacity)) [
      | yes k ↦
          sequence_same q low (low + q.capacity) i
            (sym (ap (λ n. n % q.capacity) k ∙ add-mod_right low q.capacity))
          ∙ sym k
      | no n ↦
          others low (low + q.capacity) i (omega arith) (omega (arith, r.two)) (omega arith)
            (omega arith) (omega arith)
          ∙ r.free i e (omega arith)
    ];
    used = λ i e f.
        Used-map q (set_sequence q low (low + q.capacity)) claims i
          (others low (low + q.capacity) i (omega arith) (omega (arith, r.two)) (omega arith)
            (omega (arith, r.window)) (omega arith))
          (item_at-set_sequence q low (low + q.capacity) i) (r.used i (omega arith) f);
  }
