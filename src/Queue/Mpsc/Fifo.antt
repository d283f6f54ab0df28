-- ===== src/Queue/Mpsc/Fifo.antt =====
-- `MPSCQueue` from one thread is a FIFO of at most `capacity` items.
use native.Mathlib.Nat.{add-zero, add-mod_right}
use scicompute.Base.{
  ℕ, zero, suc, ◌+◌, ◌%◌, ◌^◌, ◌≤◌, ◌<◌, ◌≡◌, Bool, true, false, refl, sym, ap, subst, ◌∙◌, some,
  none, Option, List, [], ◌∷◌, ◌++◌, arith, length, dec_lt, add_size, ltb, if_true, if_false,
  lt→ltb, not_lt→ltb, ◌==◌, if◌then◌else◌, Bool-cases, not, inl, inr, ==_refl, ==_ne,
}
use scicompute.Base.Int.{is_zero-diff, is_negative-diff}
use scicompute.Queue.Mpsc.{
  Mpsc, fill, set_item, set_sequence, push_loop, push, pop, difference_is_zero,
  difference_is_negative,
}
use scicompute.Queue.Mpsc.Slots.{sequence_at, item_at}
use scicompute.Queue.Mpsc.Holds.{Holds, Holds-push, Holds-pop}

module _ {ℓ} {A : Type ℓ} where
  -- What `Push` finds at the tail: its own position if there is room, else an older number.
  tail_room :
      (q : Mpsc A) (xs : List A)
      → Holds q xs
      → length xs < q.capacity
      → sequence_at q q.enqueue_pos ≡ q.enqueue_pos
  tail_room q xs h room = h.free q.enqueue_pos (omega arith) (omega (arith, h.count))

  tail_full :
      (q : Mpsc A) (xs : List A)
      → Holds q xs
      → length xs ≡ q.capacity
      → sequence_at q q.enqueue_pos ≡ suc q.dequeue_pos
  unfolding sequence_at
  tail_full q xs h full =
      ap (λ n. (q.pool n).sequence)
        (ap (λ n. n % q.capacity) {x = q.enqueue_pos} {y = q.dequeue_pos + q.capacity}
            (omega (arith, h.count))
          ∙ add-mod_right q.dequeue_pos q.capacity
          ∙ ap (λ n. n % q.capacity) (sym (add-zero q.dequeue_pos)))
      ∙ h.numbers 0 (omega (arith, h.two))
      ∙ ap suc (add-zero q.dequeue_pos)

  -- What `Push` answers, and the queue that it leaves.
  abbrev pub fifo_push : ℕ → A → List A → Bool × List A
  fifo_push cap x xs = if ltb (length xs) cap then (true, xs ++ x ∷ []) else (false, xs)

  loop_full :
      (weak : ℕ → Bool) (fuel : ℕ) (q : Mpsc A) (xs : List A) (x : A)
      → Holds q xs
      → length xs ≡ q.capacity
      → q.enqueue_pos + q.capacity < 2 ^ 63
      → push_loop weak (suc fuel) q.enqueue_pos x q ≡ some (false, q)
  unfolding push_loop sequence_at
  loop_full weak fuel q xs x h full small =
      let at = tail_full q xs h full in
      let lt : sequence_at q q.enqueue_pos < q.enqueue_pos = omega (arith, at, h.count, h.two) in
      let z : difference_is_zero (sequence_at q q.enqueue_pos) q.enqueue_pos ≡ false =
        is_zero-diff (sequence_at q q.enqueue_pos) q.enqueue_pos (omega arith) (omega arith)
        ∙ ==_ne (sequence_at q q.enqueue_pos) q.enqueue_pos (omega arith) in
      let n : difference_is_negative (sequence_at q q.enqueue_pos) q.enqueue_pos ≡ true =
        is_negative-diff (sequence_at q q.enqueue_pos) q.enqueue_pos (omega arith) (omega arith)
        ∙ lt→ltb (sequence_at q q.enqueue_pos) q.enqueue_pos lt in
      rw (z, n)

  -- The loop goes round as long as the compare-exchange fails for no reason.
  loop_room :
      (weak : ℕ → Bool) (fuel j : ℕ) (q : Mpsc A) (xs : List A) (x : A)
      → j < fuel
      → weak j ≡ false
      → Holds q xs
      → length xs < q.capacity
      → q.enqueue_pos + q.capacity < 2 ^ 63
      → push_loop weak fuel q.enqueue_pos x q
        ≡ some (true, fill (record q { enqueue_pos = add_size q.enqueue_pos 1 }) q.enqueue_pos x)
  unfolding push_loop sequence_at
  loop_room weak zero j q xs x lt w h room small = elim lt [ ]
  loop_room weak (suc fuel) j q xs x lt w h room small =
      let at = tail_room q xs h room in
      let z : difference_is_zero (sequence_at q q.enqueue_pos) q.enqueue_pos ≡ true =
        is_zero-diff (sequence_at q q.enqueue_pos) q.enqueue_pos (omega (arith, at)) (omega arith)
        ∙ ap (λ k. k == q.enqueue_pos) at
        ∙ ==_refl q.enqueue_pos in
      elim (Bool-cases (weak fuel)) [
        | inl again ↦
            rw (z, again)
              (loop_room weak fuel j q xs x (omega (arith, λ (e : fuel ≡ j). absurd_weak e again)) w
                h room small)
        | inr now ↦ rw (z, now, ==_refl q.enqueue_pos)
      ]
    where
      absurd_weak : fuel ≡ j → weak fuel ≡ true → ⊥
      absurd_weak e again = cc

  -- On a queue that holds `xs`, with positions below 2^63 - capacity, `Push` answers as a FIFO of
  -- at most `capacity` items and leaves what that FIFO leaves, for any spurious failures of the
  -- compare-exchange, once the fuel reaches past a round j in which it does not fail.
  pub push_refines :
      (weak : ℕ → Bool) (fuel j : ℕ) (q : Mpsc A) (xs : List A) (x : A)
      → j < fuel
      → weak j ≡ false
      → Holds q xs
      → q.enqueue_pos + q.capacity < 2 ^ 63
      → (q' : Mpsc A) × (push weak fuel x q ≡ some ((fifo_push q.capacity x xs).0, q'))
        × Holds q' (fifo_push q.capacity x xs).1
        × (q'.capacity ≡ q.capacity)
        × (q'.enqueue_pos ≤ q.enqueue_pos + 1)
  unfolding push set_item set_sequence
  push_refines weak zero j q xs x lt w h small = elim lt [ ]
  push_refines weak (suc fuel) j q xs x lt w h small = elim (dec_lt (length xs) q.capacity) [
    | yes room ↦ (
      fill (record q { enqueue_pos = add_size q.enqueue_pos 1 }) q.enqueue_pos x,
      if_true _ _ h.ready
          ∙ rw (lt→ltb (length xs) q.capacity room)
              (loop_room weak (suc fuel) j q xs x lt w h room small),
      rw (lt→ltb (length xs) q.capacity room) (Holds-push q xs x h room small),
      refl,
      omega (arith, small),
    )
    | no full ↦ (
      q,
      if_true _ _ h.ready
          ∙ rw (not_lt→ltb (length xs) q.capacity full)
              (loop_full weak fuel q xs x h (omega (arith, h.fits)) small),
      rw (not_lt→ltb (length xs) q.capacity full) h,
      refl,
      omega arith,
    )
  ]

  abbrev pub fifo_pop : List A → Option A × List A
  fifo_pop [] = (none, [])
  fifo_pop (x ∷ xs) = (some x, xs)

  -- On a queue that holds `xs`, with positions below 2^63 - capacity, `Pop` answers the oldest item
  -- or that there is none, and leaves the other items.
  pub pop_refines :
      (q : Mpsc A) (xs : List A)
      → Holds q xs
      → q.enqueue_pos + q.capacity < 2 ^ 63
      → ((pop q).0 ≡ (fifo_pop xs).0)
        × Holds (pop q).1 (fifo_pop xs).1
        × ((pop q).1.capacity ≡ q.capacity)
        × ((pop q).1.enqueue_pos ≡ q.enqueue_pos)
  unfolding pop sequence_at item_at set_sequence
  pop_refines q [] h small =
      let d = q.dequeue_pos in
      let at : sequence_at q d ≡ d = h.free d (omega (arith, h.count)) (omega (arith, h.two)) in
      let z : difference_is_zero (sequence_at q d) (add_size d 1) ≡ false =
        is_zero-diff (sequence_at q d) (add_size d 1) (omega (arith, at, h.count))
          (omega (arith, h.count, h.two))
        ∙ ==_ne (sequence_at q d) (add_size d 1) (omega (arith, at, h.count)) in
      subst
        (λ (r : Option A × Mpsc A).
          (r.0 ≡ none)
          × Holds r.1 []
          × (r.1.capacity ≡ q.capacity)
          × (r.1.enqueue_pos ≡ q.enqueue_pos))
        (sym (if_false _ _ (ap not h.ready) ∙ if_false _ _ z)) (refl, h, refl, refl)
  pop_refines q (x ∷ xs) h small =
      let d = q.dequeue_pos in
      let at : sequence_at q d ≡ suc d =
        ap (sequence_at q) (sym (add-zero d)) ∙ h.numbers 0 (omega arith) ∙ ap suc (add-zero d) in
      let next : add_size d 1 ≡ suc d = omega (arith, h.count, small) in
      let z : difference_is_zero (sequence_at q d) (add_size d 1) ≡ true =
        is_zero-diff (sequence_at q d) (add_size d 1) (omega (arith, at, h.count))
          (omega (arith, h.count, h.two))
        ∙ ap (λ k. k == add_size d 1) (at ∙ sym next)
        ∙ ==_refl (add_size d 1) in
      subst
        (λ (r : Option A × Mpsc A).
          (r.0 ≡ some x)
          × Holds r.1 xs
          × (r.1.capacity ≡ q.capacity)
          × (r.1.enqueue_pos ≡ q.enqueue_pos))
        (sym (if_false _ _ (ap not h.ready) ∙ if_true _ _ z))
        (
          sym (h.items 0 (omega arith) ∙ ap (λ k. some (item_at q k)) (add-zero d)),
          Holds-pop q x xs h small,
          refl,
          refl,
        )
