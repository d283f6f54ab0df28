-- ===== src/Queue/Mpsc/Batch.antt =====
-- `PushBatch`, `PopBatch`, `SizeApprox`, `Empty` and `Reserve` of `MPSCQueue`.
use native.Mathlib.Nat.{add-zero}
use mathlib.Core.List.{append_assoc, append-nil}
use scicompute.Base.{
  ℕ, zero, suc, ◌+◌, ◌-◌, ◌^◌, ◌<◌, ◌≡◌, Bool, true, false, refl, sym, ap, subst, ◌∙◌, some, List,
  [], ◌∷◌, ◌++◌, arith, length, length-append, dec_lt, add_size, take, drop, min, lt→ltb,
  not_lt→ltb, ◌==◌, if_true, if_false, not, ==_ne, ==_iff, take-nil, take-cons,
}
use scicompute.Queue.Mpsc.{Mpsc, push, pop, push_batch, pop_batch, empty, size_approx}
use scicompute.Queue.Mpsc.Slots.{sequence_at}
use scicompute.Queue.Mpsc.Holds.{Holds}
use scicompute.Queue.Mpsc.Fifo.{fifo_push, push_refines, pop_refines}

module _ {ℓ} {A : Type ℓ} where
  -- On a queue that holds `xs`, whose positions stay below 2^63, and with fuel past a round in which
  -- the compare-exchange does not fail, `PushBatch` appends as many of the items as there is room
  -- for, in order, and returns their number.
  pub push_batch_refines :
      (weak : ℕ → Bool) (fuel j : ℕ) (ys : List A) (q : Mpsc A) (xs : List A)
      → j < fuel
      → weak j ≡ false
      → Holds q xs
      → q.enqueue_pos + length ys + q.capacity < 2 ^ 63
      → (q' : Mpsc A) × (push_batch weak fuel ys q
          ≡ some (min (length ys) (q.capacity - length xs), q'))
        × Holds q' (xs ++ take (q.capacity - length xs) ys)
  unfolding push_batch
  push_batch_refines weak fuel j [] q xs lt w h small = (
    q,
    ap (λ n. some (n, q)) (omega arith),
    subst (Holds q) (sym (ap (λ r. xs ++ r) (take-nil (q.capacity - length xs)) ∙ append-nil xs)) h,
  )
  push_batch_refines weak fuel j (y ∷ ys) q xs lt w h small = elim (dec_lt (length xs) q.capacity) [
    | yes room ↦
        let r : fifo_push q.capacity y xs ≡ (true, xs ++ y ∷ []) =
          if_true _ _ (lt→ltb (length xs) q.capacity room) in
        let (q1, e, h1, c, b) = push_refines weak fuel j q xs y lt w h (omega arith) in
        let (q2, e2, h2) =
          push_batch_refines weak fuel j ys q1 (xs ++ y ∷ []) lt w (subst (λ p. Holds q1 p.1) r h1)
            (omega (arith, c)) in
        let e1 : push weak fuel y q ≡ some (true, q1) = e ∙ ap (λ p. some (p.0, q1)) r in
        let left = q.capacity - length xs in
        let left1 = q1.capacity - length (xs ++ y ∷ []) in
        (
          q2,
          rw (e1, e2)
              (ap (λ n. some (n, q2)) {x = suc (min (length ys) left1)}
                (omega (arith, c, length-append xs (y ∷ [])))),
          subst (Holds q2)
              (append_assoc xs (y ∷ []) (take left1 ys)
                ∙ ap (λ r. xs ++ r)
                    (sym (take-cons left left1 y ys (omega (arith, c, length-append xs (y ∷ []))))))
              h2,
        )
    | no full ↦
        let r : fifo_push q.capacity y xs ≡ (false, xs) =
          if_false _ _ (not_lt→ltb (length xs) q.capacity full) in
        let (q1, e, h1, c, b) = push_refines weak fuel j q xs y lt w h (omega arith) in
        let e1 : push weak fuel y q ≡ some (false, q1) = e ∙ ap (λ p. some (p.0, q1)) r in
        let none_left : q.capacity - length xs ≡ 0 = omega arith in
        (
          q1,
          rw e1 (ap (λ n. some (n, q1)) {x = 0} (omega arith)),
          subst (Holds q1) (sym (ap (λ n. xs ++ take n (y ∷ ys)) none_left ∙ append-nil xs))
              (subst (λ p. Holds q1 p.1) r h1),
        )
  ]

  -- On a queue that holds `xs`, with positions below 2^63 - capacity, `PopBatch` takes up to n of
  -- the oldest items, in order, and leaves the others.
  pub pop_batch_refines :
      (n : ℕ) (q : Mpsc A) (xs : List A)
      → Holds q xs
      → q.enqueue_pos + q.capacity < 2 ^ 63
      → ((pop_batch n q).0 ≡ take n xs) × Holds (pop_batch n q).1 (drop n xs)
  unfolding pop_batch
  pop_batch_refines zero q xs h small = (refl, h)
  pop_batch_refines (suc n) q [] h small =
      let (e, h1, c, b) = pop_refines q [] h small in rw (pop_batch, e) (refl, h1)
  pop_batch_refines (suc n) q (x ∷ xs) h small =
      let (e, h1, c, b) = pop_refines q (x ∷ xs) h small in
      let (ih, h2) = pop_batch_refines n (pop q).1 xs h1 (omega (arith, c, b)) in
      rw (pop_batch, e) (ap (◌∷◌ x) ih, h2)

  -- On a queue that holds `xs`, with positions below 2^63 - capacity, `SizeApprox` is their number
  -- and `Empty` says whether there are none.
  observers_lem :
      (q : Mpsc A) (xs : List A)
      → Holds q xs
      → q.enqueue_pos + q.capacity < 2 ^ 63
      → (size_approx q ≡ length xs) × (empty q ≡ (length xs == 0))
  unfolding size_approx empty sequence_at
  observers_lem q [] h small = (
    omega (arith, h.count),
    if_false _ _ (ap not h.ready)
        ∙ ap not (
            ==_ne (sequence_at q q.dequeue_pos) (add_size q.dequeue_pos 1) (
              omega (
                arith,
                h.free q.dequeue_pos (omega (arith, h.count)) (omega (arith, h.two)),
                h.count,
              ))),
  )
  observers_lem q (x ∷ xs) h small = (
    omega (arith, h.count),
    if_false _ _ (ap not h.ready)
        ∙ ap not (
            (==_iff (sequence_at q q.dequeue_pos) (add_size q.dequeue_pos 1)).1 (
              ap (sequence_at q) (sym (add-zero q.dequeue_pos))
              ∙ h.numbers 0 (omega arith)
              ∙ omega (arith, h.count, small)))
        ∙ sym (==_ne (suc (length xs)) 0 (omega arith)),
  )
