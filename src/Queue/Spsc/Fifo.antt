-- ===== src/Queue/Spsc/Fifo.antt =====
-- `SPSCQueue` from one thread is a FIFO of at most `capacity - 1` items.
use scicompute.Base.{
  ℕ_discrete, inl, inr, ◌⊎◌, dec_lt, ==_ne, lt→ltb, not_lt→ltb, ℕ, ◌+◌, ◌%◌, ◌<◌, ◌≡◌, refl, ◌≢◌,
  Bool, true, false, none, some, Option, List, [], ◌∷◌, ◌++◌, arith, size_mod, length, set, ltb,
  ◌==◌, if◌then◌else◌,
}
use scicompute.Base.Fallible.{◌>>=◌}
use scicompute.Queue.Spsc.{Spsc, init, push, pop, empty, full, size_approx}
use scicompute.Queue.Spsc.Holds.{
  write-cases, Holds-blank, Holds-push, store-eq, fetch-eq, next-eq-read, next-ne-read,
  read-eq-write, read-ne-write, Holds, write_in, next_idx-lem, Holds-drop,
}

-- A client's calls in order, with what each returns; `none` if one of them faults.
pub data Call {ℓ} (A : Type ℓ) : Type ℓ where
  pushes : A → Call A
  pops : Call A

pub data Reply {ℓ} (A : Type ℓ) : Type ℓ where
  pushed : Bool → Reply A
  popped : Option A → Reply A

module _ {ℓ} {A : Type ℓ} where
  -- `Init` with a capacity that is not zero succeeds on any queue and leaves it empty.
  pub init-Holds :
      (blank : A) (n : ℕ) (q : Spsc A)
      → 0 < n
      → n < size_mod
      → ((init blank n q).0 ≡ true)
        × Holds (init blank n q).1 []
        × ((init blank n q).1.capacity ≡ n)
  unfolding init
  init-Holds blank n q p s = rw (==_ne n 0 (omega arith)) (refl, Holds-blank blank n p s, refl)

  -- The bounded FIFO that `Push` and `Pop` implement.
  unfoldable pub fifo_push : ℕ → A → List A → Bool × List A
  fifo_push cap item xs = if ltb (length xs + 1) cap then (true, xs ++ item ∷ []) else (false, xs)

  unfoldable pub fifo_pop : List A → Option A × List A
  fifo_pop [] = (none, [])
  fifo_pop (x ∷ xs) = (some x, xs)

  pub push-Holds :
      (item : A) (q : Spsc A) (xs : List A)
      → Holds q xs
      → (q' : Spsc A) × (push item q ≡ some ((fifo_push q.capacity item xs).0, q'))
        × Holds q' (fifo_push q.capacity item xs).1
        × (q'.capacity ≡ q.capacity)
  unfolding push fifo_push
  push-Holds item q xs h = elim (dec_lt (length xs + 1) q.capacity) [
    | yes room ↦ (
      record q {
        buffer = some (set h.storage q.write_idx item);
        write_idx = (q.write_idx + 1) % q.capacity;
      },
      ground (
        arith,
        next_idx-lem q q.write_idx (write_in q xs h) h.small,
        next-ne-read q xs h room,
        store-eq q xs item h,
      ),
      rw (lt→ltb (length xs + 1) q.capacity room) (Holds-push q xs item h room),
      refl,
    )
    | no full ↦ (
      q,
      ground (
        arith,
        next_idx-lem q q.write_idx (write_in q xs h) h.small,
        next-eq-read q xs h (omega (arith, h.room)),
      ),
      rw (not_lt→ltb (length xs + 1) q.capacity full) h,
      refl,
    )
  ]

  pub pop-Holds :
      (q : Spsc A) (xs : List A)
      → Holds q xs
      → (q' : Spsc A) × (pop q ≡ some ((fifo_pop xs).0, q'))
        × Holds q' (fifo_pop xs).1
        × (q'.capacity ≡ q.capacity)
  unfolding pop fifo_pop
  pop-Holds q [] h = (q, ground (arith, read-eq-write q h), h, refl)
  pop-Holds q (x ∷ xs) h = (
    record q { read_idx = (q.read_idx + 1) % q.capacity },
    ground (
      arith,
      read-ne-write q x xs h,
      fetch-eq q x xs h,
      next_idx-lem q q.read_idx h.read_in h.small,
    ),
    Holds-drop q x xs h,
    refl,
  )

  full_cases :
      (q : Spsc A) (xs : List A)
      → Holds q xs
      → ((length xs + 1 ≡ q.capacity) × ((q.write_idx + 1) % q.capacity ≡ q.read_idx))
        ⊎ ((length xs + 1 ≢ q.capacity) × ((q.write_idx + 1) % q.capacity ≢ q.read_idx))
  full_cases q xs h = elim (ℕ_discrete (length xs + 1) q.capacity) [
    | yes e ↦ inl (e, next-eq-read q xs h e)
    | no n ↦ inr (n, next-ne-read q xs h (omega (arith, h.room)))
  ]

  -- On a queue that holds the items `xs`, `SizeApprox` is their number, `Empty` says whether there are
  -- none, and `Full`, without a fault, whether they are one fewer than the capacity.
  observers :
      (q : Spsc A) (xs : List A)
      → Holds q xs
      → (size_approx q ≡ length xs)
        × (empty q ≡ (length xs == 0))
        × (full q ≡ some (length xs + 1 == q.capacity))
  unfolding size_approx empty full
  observers q xs h = ground (
    arith,
    write-cases q xs h,
    next_idx-lem q q.write_idx (write_in q xs h) h.small,
    full_cases q xs h,
  )

  unfoldable pub run : List (Call A) → Spsc A → Option (List (Reply A))
  run [] q = some []
  run (pushes item ∷ cs) q = push item q >>= λ (r, q'). run cs q' >>= λ rs. some (pushed r ∷ rs)
  run (pops ∷ cs) q = pop q >>= λ (r, q'). run cs q' >>= λ rs. some (popped r ∷ rs)

  unfoldable pub fifo_run : ℕ → List (Call A) → List A → List (Reply A)
  unfolding fifo_push fifo_pop
  fifo_run cap [] xs = []
  fifo_run cap (pushes item ∷ cs) xs =
      let (r, ys) = fifo_push cap item xs in pushed r ∷ fifo_run cap cs ys
  fifo_run cap (pops ∷ cs) xs = let (r, ys) = fifo_pop xs in popped r ∷ fifo_run cap cs ys

  -- A queue that holds the items `xs` answers every sequence of `Push` and `Pop` calls from one
  -- thread as a FIFO of at most `capacity - 1` items that starts with `xs`, and no call faults.
  pub run_refines :
      (cs : List (Call A)) (q : Spsc A) (xs : List A)
      → Holds q xs
      → run cs q ≡ some (fifo_run q.capacity cs xs)
  unfolding run fifo_run
  run_refines [] q xs h = refl
  run_refines (pushes item ∷ cs) q xs h =
      let (q', e, h', c) = push-Holds item q xs h in
      rw (e, run_refines cs q' (fifo_push q.capacity item xs).1 h', c)
  run_refines (pops ∷ cs) q xs h =
      let (q', e, h', c) = pop-Holds q xs h in rw (e, run_refines cs q' (fifo_pop xs).1 h', c)
