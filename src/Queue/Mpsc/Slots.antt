-- ===== src/Queue/Mpsc/Slots.antt =====
-- Slots of `MPSCQueue`: what the writes change, seen by absolute position.
use scicompute.Base.{
  ℕ, ◌+◌, ◌%◌, ◌≤◌, ◌<◌, ◌≡◌, ◌≢◌, sym, ap, ◌∙◌, arith, dec_lt, ℕ_discrete, ==_ne, ==_refl,
}
use scicompute.Base.Words.{mod_apart}
use scicompute.Queue.Mpsc.{Mpsc, Node, update, node_at, set_item, set_sequence}

-- Two positions of one window of `cap` positions have different slots.
pub slots_apart :
    (cap low i j : ℕ)
    → low ≤ i
    → i < low + cap
    → low ≤ j
    → j < low + cap
    → i ≢ j
    → i % cap ≢ j % cap
slots_apart cap low i j a b c d ne = elim (dec_lt i j) [
  | yes p ↦ mod_apart cap i j p (omega arith)
  | no p ↦ λ e. mod_apart cap j i (omega arith) (omega arith) (sym e)
]

pub update-same {ℓ} : {A : Type ℓ} (f : ℕ → A) (i j : ℕ) (v : A) → i ≡ j → update f i v j ≡ v
update-same f i j v e = rw (e, ==_refl j)

pub update-other {ℓ} : {A : Type ℓ} (f : ℕ → A) (i j : ℕ) (v : A) → i ≢ j → update f i v j ≡ f j
update-other f i j v n = rw (==_ne i j n)

module _ {ℓ} {A : Type ℓ} where
  unfoldable pub sequence_at : Mpsc A → ℕ → ℕ
  unfolding node_at
  sequence_at q i = (node_at q i).sequence

  unfoldable pub item_at : Mpsc A → ℕ → A
  unfolding node_at
  item_at q i = (node_at q i).item

  pub sequence_same :
      (q : Mpsc A) (p v i : ℕ)
      → p % q.capacity ≡ i % q.capacity
      → sequence_at (set_sequence q p v) i ≡ v
  unfolding sequence_at set_sequence
  sequence_same q p v i e =
      ap (λ (n : Node A). n.sequence) (update-same q.pool (p % q.capacity) (i % q.capacity) _ e)

  pub sequence_other :
      (q : Mpsc A) (p v i : ℕ)
      → p % q.capacity ≢ i % q.capacity
      → sequence_at (set_sequence q p v) i ≡ sequence_at q i
  unfolding sequence_at set_sequence
  sequence_other q p v i e =
      ap (λ (n : Node A). n.sequence) (update-other q.pool (p % q.capacity) (i % q.capacity) _ e)

  pub item_at-set_sequence : (q : Mpsc A) (p v i : ℕ) → item_at (set_sequence q p v) i ≡ item_at q i
  unfolding item_at set_sequence
  item_at-set_sequence q p v i = elim (ℕ_discrete (p % q.capacity) (i % q.capacity)) [
    | yes e ↦
        ap (λ (n : Node A). n.item) (update-same q.pool (p % q.capacity) (i % q.capacity) _ e)
        ∙ ap (λ k. (q.pool k).item) e
    | no n ↦ ap (λ (m : Node A). m.item) (update-other q.pool (p % q.capacity) (i % q.capacity) _ n)
  ]

  pub sequence_at-set_item :
      (q : Mpsc A) (p i : ℕ) (x : A) → sequence_at (set_item q p x) i ≡ sequence_at q i
  unfolding sequence_at set_item
  sequence_at-set_item q p i x = elim (ℕ_discrete (p % q.capacity) (i % q.capacity)) [
    | yes e ↦
        ap (λ (n : Node A). n.sequence) (update-same q.pool (p % q.capacity) (i % q.capacity) _ e)
        ∙ ap (λ k. (q.pool k).sequence) e
    | no n ↦
        ap (λ (m : Node A). m.sequence) (update-other q.pool (p % q.capacity) (i % q.capacity) _ n)
  ]

  pub item_same :
      (q : Mpsc A) (p i : ℕ) (x : A)
      → p % q.capacity ≡ i % q.capacity
      → item_at (set_item q p x) i ≡ x
  unfolding item_at set_item
  item_same q p i x e =
      ap (λ (n : Node A). n.item) (update-same q.pool (p % q.capacity) (i % q.capacity) _ e)

  pub item_other :
      (q : Mpsc A) (p i : ℕ) (x : A)
      → p % q.capacity ≢ i % q.capacity
      → item_at (set_item q p x) i ≡ item_at q i
  unfolding item_at set_item
  item_other q p i x e =
      ap (λ (n : Node A). n.item) (update-other q.pool (p % q.capacity) (i % q.capacity) _ e)

  -- A sequence number that rises leaves every number at least as high.
  pub sequence_mono :
      (q : Mpsc A) (p v i : ℕ)
      → sequence_at q p ≤ v
      → sequence_at q i ≤ sequence_at (set_sequence q p v) i
  unfolding sequence_at
  sequence_mono q p v i h = elim (ℕ_discrete (p % q.capacity) (i % q.capacity)) [
    | yes e ↦ omega (arith, sequence_same q p v i e, slot_eq e)
    | no n ↦ omega (arith, sequence_other q p v i n)
  ]
    where
      slot_eq : p % q.capacity ≡ i % q.capacity → sequence_at q p ≡ sequence_at q i
      slot_eq = ap (λ k. (q.pool k).sequence)
