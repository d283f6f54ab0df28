-- ===== src/Queue/Mpsc/Threads/Defs.antt =====
-- What each thread knows of the queue at each point of an interleaving.
use scicompute.Base.{
  ℕ, suc, ◌≤◌, ◌<◌, ◌≡◌, ◌≢◌, refl, sym, subst, ◌∙◌, Option, some, none, List, arith, ℕ_discrete,
  length, get_elem?, take,
}
use scicompute.Queue.Mpsc.{Mpsc, update}
use scicompute.Queue.Mpsc.Slots.{sequence_at, item_at, update-same, update-other}
use scicompute.Queue.Mpsc.Ring.{Ring}
use scicompute.Queue.Mpsc.Threads.{Producer, Consumer, System}

-- A position that a producer has claimed for `x` and not published.
pub record Held {ℓ} {A : Type ℓ} (q : Mpsc A) (low : ℕ) (claims : List A) (x : A) (pos : ℕ)
    : Type ℓ where
  pub above : low ≤ pos
  pub below : pos < q.enqueue_pos
  pub unpublished : sequence_at q pos ≡ pos
  pub owed : get_elem? claims pos ≡ some x

module _ {ℓ} {A : Type ℓ} where
  abbrev pub ProducerAgrees : Mpsc A → ℕ → List A → Producer A → Type ℓ
  ProducerAgrees q low claims Producer.resting = Unit
  ProducerAgrees q low claims (Producer.looping x pos) = (pos ≤ q.enqueue_pos) × Unit {ℓ}
  ProducerAgrees q low claims (Producer.compared x pos sequence) =
      (pos ≤ q.enqueue_pos) × (sequence ≤ sequence_at q pos) × Unit {ℓ}
  ProducerAgrees q low claims (Producer.claimed x pos) = Held q low claims x pos × Unit {ℓ}
  ProducerAgrees q low claims (Producer.written x pos) =
      Held q low claims x pos × (item_at q pos ≡ x)

  abbrev pub ConsumerAgrees : Mpsc A → List A → Consumer A → Type ℓ
  ConsumerAgrees q claims Consumer.resting = Unit
  ConsumerAgrees q claims (Consumer.loaded pos) = (pos ≡ q.dequeue_pos) × Unit {ℓ}
  ConsumerAgrees q claims (Consumer.ready pos) =
      (pos ≡ q.dequeue_pos) × (pos < q.enqueue_pos) × (sequence_at q pos ≡ suc pos) × Unit {ℓ}
  ConsumerAgrees q claims (Consumer.fetched pos x) =
      (pos ≡ q.dequeue_pos)
      × (pos < q.enqueue_pos)
      × (sequence_at q pos ≡ suc pos)
      × (get_elem? claims pos ≡ some x)
  ConsumerAgrees q claims (Consumer.releasing pos) =
      (suc pos ≡ q.dequeue_pos) × (sequence_at q pos ≡ suc pos) × Unit {ℓ}

  -- The first position whose slot `Pop` has not given back.
  abbrev pub released : ℕ → Consumer A → ℕ
  released d (Consumer.releasing pos) = pos
  released d Consumer.resting = d
  released d (Consumer.loaded pos) = d
  released d (Consumer.ready pos) = d
  released d (Consumer.fetched pos x) = d

  abbrev pub low_of : System A → ℕ
  low_of s = released s.mem.dequeue_pos s.consumer

  -- The position that a producer has claimed and not published.
  abbrev pub holding : Producer A → Option ℕ
  holding Producer.resting = none
  holding (Producer.looping x pos) = none
  holding (Producer.compared x pos sequence) = none
  holding (Producer.claimed x pos) = some pos
  holding (Producer.written x pos) = some pos

  pub record Inv (s : System A) : Type ℓ where
    pub ring : Ring s.mem (low_of s) s.claims
    pub ahead : s.mem.dequeue_pos ≤ s.mem.enqueue_pos
    pub taken : s.mem.dequeue_pos ≡ length s.got
    pub order : s.got ≡ take (length s.got) s.claims
    pub producing : (t : ℕ) → ProducerAgrees s.mem (low_of s) s.claims (s.threads t)
    pub unique :
        (t u pos : ℕ) → holding (s.threads t) ≡ some pos → holding (s.threads u) ≡ some pos → t ≡ u
    pub consuming : ConsumerAgrees s.mem s.claims s.consumer

  -- A fact of all threads after one of them has moved.
  pub update_all {κ} :
      (P : Producer A → Type κ) (f : ℕ → Producer A) (t : ℕ) (p : Producer A)
      → ((u : ℕ) → t ≢ u → P (f u))
      → P p
      → (u : ℕ) → P (update f t p u)
  update_all P f t p h hp u = elim (ℕ_discrete t u) [
    | yes e ↦ subst P (sym (update-same f t u p e)) hp
    | no n ↦ subst P (sym (update-other f t u p n)) (h u n)
  ]

  -- Claimed positions stay distinct if no other thread holds the new one.
  pub unique_update :
      (f : ℕ → Producer A) (t : ℕ) (p : Producer A)
      → ((t u pos : ℕ) → holding (f t) ≡ some pos → holding (f u) ≡ some pos → t ≡ u)
      → ((u pos : ℕ) → t ≢ u → holding p ≡ some pos → holding (f u) ≢ some pos)
      → (a b pos : ℕ) → holding (update f t p a) ≡ some pos
      → holding (update f t p b) ≡ some pos
      → a ≡ b
  unique_update f t p old new a b pos ha hb = elim (ℕ_discrete t a) [
    | yes ea ↦ elim (ℕ_discrete t b) [
      | yes eb ↦ sym ea ∙ eb
      | no nb ↦ absurd (
          new b pos nb (subst (λ r. holding r ≡ some pos) (update-same f t a p ea) ha)
            (subst (λ r. holding r ≡ some pos) (update-other f t b p nb) hb))
    ]
    | no na ↦ elim (ℕ_discrete t b) [
      | yes eb ↦ absurd (
          new a pos na (subst (λ r. holding r ≡ some pos) (update-same f t b p eb) hb)
            (subst (λ r. holding r ≡ some pos) (update-other f t a p na) ha))
      | no nb ↦
          old a b pos (subst (λ r. holding r ≡ some pos) (update-other f t a p na) ha)
            (subst (λ r. holding r ≡ some pos) (update-other f t b p nb) hb)
    ]
  ]

  -- What a thread knows stays true where the tail and the numbers only grow and its own claimed
  -- position is left alone.
  pub ProducerAgrees-map :
      (q q' : Mpsc A) (low low' : ℕ) (claims claims' : List A) (p : Producer A)
      → q.enqueue_pos ≤ q'.enqueue_pos
      → ((i : ℕ) → sequence_at q i ≤ sequence_at q' i)
      → ((x : A) (pos : ℕ)
          → holding p ≡ some pos
          → Held q low claims x pos
          → Held q' low' claims' x pos × (item_at q' pos ≡ item_at q pos))
      → ProducerAgrees q low claims p
      → ProducerAgrees q' low' claims' p
  ProducerAgrees-map q q' low low' claims claims' Producer.resting e m h a = tt
  ProducerAgrees-map q q' low low' claims claims' (Producer.looping x pos) e m h a =
      (omega (arith, a.0), tt)
  ProducerAgrees-map q q' low low' claims claims' (Producer.compared x pos sq) e m h a =
      (omega (arith, a.0), omega (arith, a.1, m pos), tt)
  ProducerAgrees-map q q' low low' claims claims' (Producer.claimed x pos) e m h a =
      ((h x pos refl a.0).0, tt)
  ProducerAgrees-map q q' low low' claims claims' (Producer.written x pos) e m h a =
      let (held, same) = h x pos refl a.0 in (held, same ∙ a.1)
