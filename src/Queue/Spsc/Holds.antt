-- ===== src/Queue/Spsc/Holds.antt =====
-- What a queue holds, and how the writes of `Push` and `Pop` change it.
use native.Mathlib.Nat.{mod-eq-sub-mod, mod-lt, mod-add-mod, mod-eq_of_lt, add-zero, add-mod_right}
use scicompute.Base.{
  some_inj, subst, ◌⊎◌, inl, inr, ◌-◌, replicate, length-replicate, get_elem?-set_self, ℕ, suc, ◌+◌,
  ◌%◌, ◌<◌, ◌≡◌, refl, sym, ap, ◌∙◌, ◌≢◌, some, List, [], ◌∷◌, ◌++◌, arith, size_mod, length,
  get_elem?, set, length-append, length-set, get_elem?-set_ne, get_elem?-append_left,
  get_elem?-append_last, dec_lt,
}
use scicompute.Base.Words.{mod_apart}
use scicompute.Queue.Spsc.{Spsc, next_idx, fetch, store}

-- The queue is initialised and holds the items `xs`, oldest first: item k stands k slots past
-- `read_idx`, going round at `capacity`, and one slot always stays free.
pub record Holds {ℓ} {A : Type ℓ} (q : Spsc A) (xs : List A) : Type ℓ where
  pub storage : List A
  pub allocated : q.buffer ≡ some storage
  pub sized : length storage ≡ q.capacity
  pub small : q.capacity < size_mod
  pub read_in : q.read_idx < q.capacity
  pub write_at : q.write_idx ≡ (q.read_idx + length xs) % q.capacity
  pub room : length xs < q.capacity
  pub items :
      (k : ℕ) → k < length xs → get_elem? storage ((q.read_idx + k) % q.capacity) ≡ get_elem? xs k

module _ {ℓ} {A : Type ℓ} where
  pub write_in : (q : Spsc A) (xs : List A) → Holds q xs → q.write_idx < q.capacity
  write_in q xs h = rw h.write_at (mod-lt (q.read_idx + length xs) (omega arith))

  -- `(write + 1) % capacity_` neither faults nor wraps.
  pub next_idx-lem :
      (q : Spsc A) (i : ℕ)
      → i < q.capacity
      → q.capacity < size_mod
      → next_idx q i ≡ some ((i + 1) % q.capacity)
  unfolding next_idx
  next_idx-lem q i h s = ground (arith, mod-eq_of_lt {n = i + 1} {m = size_mod} (omega arith))

  -- Writing the free slot at `write_idx` changes no item.
  pub Holds-set :
      (q : Spsc A) (xs : List A) (item : A) (h : Holds q xs)
      → length xs + 1 < q.capacity
      → Holds (record q { buffer = some (set h.storage q.write_idx item) }) xs
  Holds-set q xs item h r = record {
    storage = set h.storage q.write_idx item;
    allocated = refl;
    sized = length-set h.storage q.write_idx item ∙ h.sized;
    small = h.small;
    read_in = h.read_in;
    write_at = h.write_at;
    room = h.room;
    items = λ k lt.
        get_elem?-set_ne h.storage q.write_idx ((q.read_idx + k) % q.capacity) item (λ e.
          mod_apart q.capacity (q.read_idx + k) (q.read_idx + length xs) (omega arith) (omega arith)
            (sym e ∙ h.write_at))
        ∙ h.items k lt;
  }

  -- Publishing the slot at `write_idx` appends the item that it holds.
  pub Holds-publish :
      (q : Spsc A) (xs : List A) (item : A) (h : Holds q xs)
      → length xs + 1 < q.capacity
      → get_elem? h.storage q.write_idx ≡ some item
      → Holds (record q { write_idx = (q.write_idx + 1) % q.capacity }) (xs ++ item ∷ [])
  Holds-publish q xs item h r e = record {
    storage = h.storage;
    allocated = h.allocated;
    sized = h.sized;
    small = h.small;
    read_in = h.read_in;
    write_at =
        ap (λ n. (n + 1) % q.capacity) h.write_at
        ∙ mod-add-mod (q.read_idx + length xs) q.capacity 1
        ∙ ap (λ n. n % q.capacity) (omega (arith, length-append xs (item ∷ [])));
    room = omega (arith, length-append xs (item ∷ []));
    items = λ k lt. elim (dec_lt k (length xs)) [
      | yes old ↦ h.items k old ∙ sym (get_elem?-append_left xs (item ∷ []) k old)
      | no new ↦
          let k-eq : k ≡ length xs = omega (arith, length-append xs (item ∷ [])) in
          ap (λ n. get_elem? h.storage ((q.read_idx + n) % q.capacity)) k-eq
          ∙ ap (get_elem? h.storage) (sym h.write_at)
          ∙ e
          ∙ sym (get_elem?-append_last xs item)
          ∙ ap (get_elem? (xs ++ item ∷ [])) (sym k-eq)
    ];
  }

  -- Moving `read_idx` on drops the oldest item.
  pub Holds-drop :
      (q : Spsc A) (x : A) (xs : List A)
      → Holds q (x ∷ xs)
      → Holds (record q { read_idx = (q.read_idx + 1) % q.capacity }) xs
  Holds-drop q x xs h = record {
    storage = h.storage;
    allocated = h.allocated;
    sized = h.sized;
    small = h.small;
    read_in = mod-lt (q.read_idx + 1) (omega arith);
    write_at =
        h.write_at
        ∙ sym (
            mod-add-mod (q.read_idx + 1) q.capacity (length xs)
            ∙ ap (λ n. n % q.capacity) (omega arith));
    room = omega (arith, h.room);
    items = λ k lt.
        ap (get_elem? h.storage)
          (mod-add-mod (q.read_idx + 1) q.capacity k ∙ ap (λ n. n % q.capacity) (omega arith))
        ∙ h.items (suc k) (omega arith);
  }

  -- The slot at `write_idx` is written inside the storage.
  pub store-eq :
      (q : Spsc A) (xs : List A) (item : A) (h : Holds q xs)
      → store q q.write_idx item
        ≡ some (record q { buffer = some (set h.storage q.write_idx item) })
  unfolding store
  store-eq q xs item h = ground (arith, write_in q xs h)

  -- The slot at `read_idx` holds the oldest item.
  pub fetch-eq : (q : Spsc A) (x : A) (xs : List A) → Holds q (x ∷ xs) → fetch q q.read_idx ≡ some x
  unfolding fetch
  fetch-eq q x xs h = ground (
    arith,
    h.items 0,
    add-zero q.read_idx,
    mod-eq_of_lt {n = q.read_idx} {m = q.capacity} h.read_in,
  )

  -- With `capacity - 1` items the next write index is the read index,
  pub next-eq-read :
      (q : Spsc A) (xs : List A)
      → Holds q xs
      → length xs + 1 ≡ q.capacity
      → (q.write_idx + 1) % q.capacity ≡ q.read_idx
  next-eq-read q xs h full =
      ap (λ n. (n + 1) % q.capacity) h.write_at
      ∙ mod-add-mod (q.read_idx + length xs) q.capacity 1
      ∙ ap (λ n. n % q.capacity)
          (let e : q.read_idx + length xs + 1 ≡ q.read_idx + q.capacity = omega arith in e)
      ∙ add-mod_right q.read_idx q.capacity
      ∙ mod-eq_of_lt h.read_in

  -- and with fewer it is not.
  pub next-ne-read :
      (q : Spsc A) (xs : List A)
      → Holds q xs
      → length xs + 1 < q.capacity
      → (q.write_idx + 1) % q.capacity ≢ q.read_idx
  next-ne-read q xs h room e =
      mod_apart q.capacity q.read_idx (q.read_idx + length xs + 1) (omega arith) (omega arith) (
        mod-eq_of_lt h.read_in
        ∙ sym e
        ∙ ap (λ n. (n + 1) % q.capacity) h.write_at
        ∙ mod-add-mod (q.read_idx + length xs) q.capacity 1)

  -- The indices meet on the empty queue only.
  pub read-ne-write :
      (q : Spsc A) (x : A) (xs : List A) → Holds q (x ∷ xs) → q.read_idx ≢ q.write_idx
  read-ne-write q x xs h e =
      mod_apart q.capacity q.read_idx (q.read_idx + suc (length xs)) (omega arith)
        (omega (arith, h.room)) (mod-eq_of_lt h.read_in ∙ e ∙ h.write_at)

  pub read-eq-write : (q : Spsc A) → Holds q [] → q.read_idx ≡ q.write_idx
  read-eq-write q h =
      sym (h.write_at ∙ ap (λ n. n % q.capacity) (add-zero q.read_idx) ∙ mod-eq_of_lt h.read_in)

  -- `Push` into a queue with room: the item is written, then published.
  pub Holds-push :
      (q : Spsc A) (xs : List A) (item : A) (h : Holds q xs)
      → length xs + 1 < q.capacity
      → Holds
          (record q {
            buffer = some (set h.storage q.write_idx item);
            write_idx = (q.write_idx + 1) % q.capacity;
          })
          (xs ++ item ∷ [])
  unfolding Holds-set
  Holds-push q xs item h room =
      Holds-publish (record q { buffer = some (set h.storage q.write_idx item) }) xs item
        (Holds-set q xs item h room) room
        (get_elem?-set_self h.storage q.write_idx item (omega (arith, write_in q xs h, h.sized)))

  pub Holds-blank :
      (blank : A) (n : ℕ)
      → 0 < n
      → n < size_mod
      → Holds
          (record { buffer = some (replicate n blank); capacity = n; read_idx = 0; write_idx = 0 })
          []
  Holds-blank blank n p s = record {
    storage = replicate n blank;
    allocated = refl;
    sized = length-replicate n blank;
    small = s;
    read_in = p;
    write_at = sym (mod-eq_of_lt {n = 0} {m = n} p);
    room = p;
    items = λ k lt. elim lt [ ];
  }

  -- Where `write_idx` stands, without the remainder.
  pub write-cases :
      (q : Spsc A) (xs : List A)
      → Holds q xs
      → (q.write_idx ≡ q.read_idx + length xs) ⊎ (q.write_idx + q.capacity ≡ q.read_idx + length xs)
  write-cases q xs h = elim (dec_lt (q.read_idx + length xs) q.capacity) [
    | yes p ↦ inl (h.write_at ∙ mod-eq_of_lt p)
    | no p ↦
        let back = q.read_idx + length xs - q.capacity in
        let e : q.write_idx ≡ back =
          h.write_at
          ∙ mod-eq-sub-mod {n = q.read_idx + length xs} {m = q.capacity} (omega arith)
          ∙ mod-eq_of_lt {n = back} {m = q.capacity} (omega arith) in
        inr (omega arith)
  ]

  pub Holds-store :
      (q : Spsc A) (xs : List A) (item : A) (q' : Spsc A)
      → Holds q xs
      → length xs + 1 < q.capacity
      → store q q.write_idx item ≡ some q'
      → Holds q' xs
        × (fetch q' q.write_idx ≡ some item)
        × (q'.write_idx ≡ q.write_idx)
        × (q'.read_idx ≡ q.read_idx)
        × (q'.capacity ≡ q.capacity)
  unfolding fetch
  Holds-store q xs item q' h room e =
      subst
        (λ (r : Spsc A).
          Holds r xs
          × (fetch r q.write_idx ≡ some item)
          × (r.write_idx ≡ q.write_idx)
          × (r.read_idx ≡ q.read_idx)
          × (r.capacity ≡ q.capacity))
        (some_inj (sym (store-eq q xs item h) ∙ e))
        (
          Holds-set q xs item h room,
          get_elem?-set_self h.storage q.write_idx item (omega (arith, write_in q xs h, h.sized)),
          refl,
          refl,
          refl,
        )

  pub storage-eq :
      (q : Spsc A) (xs : List A) (i : ℕ) (h : Holds q xs) → fetch q i ≡ get_elem? h.storage i
  unfolding fetch
  storage-eq q xs i h = ground (arith, h.allocated)
