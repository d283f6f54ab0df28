-- ===== src/Core/Shape/Writes.antt =====
-- Building a `TensorShape` and writing one of its dimensions.
use scicompute.Base.{
  ℕ, zero, suc, ◌+◌, ◌≤◌, ◌<◌, ◌≡◌, ◌⊎◌, inl, inr, refl, sym, ap, ◌∙◌, some, none, List, [], ◌∷◌,
  map, length, get_elem?, set, arith, some_inj, if_true, if_false, lt→ltb, not_lt→ltb,
  get_elem?-set_self, get_elem?-set_ne, get_elem?-lt, ℕ_discrete, dec_lt, length-set, length-map,
}
use scicompute.Base.Int.{ℤ, pos, mul_int64, int64}
use scicompute.Base.Fallible.{◌>>=◌}
use scicompute.Core.Shape.{
  TensorShape, max_dim, zeros, set_dim, write, write_dims, of_vector, copy_dims,
  of_initializer_list, num_elements, product_from,
}
use scicompute.Core.Shape.Rows.{HasDims}

-- Writing a dimension of a shape.
pub set_dim-HasDims :
    (s : TensorShape) (ds es : List ℕ) (k d e : ℕ)
    → HasDims s ds
    → k < length s.dims
    → es ≡ set ds k e
    → length es ≡ length ds
    → get_elem? ds k ≡ some d
    → (r : TensorShape) × (set_dim k (pos e) s ≡ some r) × HasDims r es
unfolding set_dim write
set_dim-HasDims s ds es k d e (n, reads) h same len here = (
  record s { dims = set s.dims k (pos e) },
  ap (λ o. o >>= λ arr. some (record s { dims = arr })) (if_true _ _ (lt→ltb k (length s.dims) h)),
  (
    n ∙ ap pos (sym len),
    λ j x g.
        let got : get_elem? (set ds k e) j ≡ some x = ap (λ l. get_elem? l j) (sym same) ∙ g in
        elim (ℕ_discrete k j) [
          | yes eq ↦
              let own = get_elem?-set_self ds k e (get_elem?-lt ds k here) in
              let value : e ≡ x = some_inj (sym own ∙ ap (get_elem? (set ds k e)) eq ∙ got) in
              ap (get_elem? (set s.dims k (pos e))) (sym eq)
              ∙ get_elem?-set_self s.dims k (pos e) h
              ∙ ap (λ v. some (pos v)) value
          | no other ↦
              get_elem?-set_ne s.dims k j (pos e) other
              ∙ reads j x (sym (get_elem?-set_ne ds k j e other) ∙ got)
        ],
  ),
)

-- The loop of the vector constructor keeps what is behind it and writes what is before it.
write_dims-Reads :
    (ds : List ℕ) (i : ℕ) (arr : List ℤ)
    → i + length ds ≤ length arr
    → (r : List ℤ) × (write_dims (map pos ds) i arr ≡ some r)
      × ((j : ℕ) → j < i → get_elem? r j ≡ get_elem? arr j)
      × ((k d : ℕ) → get_elem? ds k ≡ some d → get_elem? r (i + k) ≡ some (pos d))
unfolding write_dims write
write_dims-Reads [] i arr h = (arr, refl, λ j l. refl, λ k d e. cc)
write_dims-Reads (x ∷ ds) i arr h =
    let (r, f, before, after) =
      write_dims-Reads ds (suc i) (set arr i (pos x)) (omega (arith, length-set arr i (pos x))) in
    (
      r,
      ap (λ o. o >>= write_dims (map pos ds) (suc i))
            (if_true _ _ (lt→ltb i (length arr) (omega arith)))
          ∙ f,
      λ j l. before j (omega arith) ∙ get_elem?-set_ne arr i j (pos x) (λ e. omega (arith, e)),
      λ k d e. after_first r k d e before after,
    )
  where
    after_first :
        (r : List ℤ) (k d : ℕ)
        → get_elem? (x ∷ ds) k ≡ some d
        → ((j : ℕ) → j < suc i → get_elem? r j ≡ get_elem? (set arr i (pos x)) j)
        → ((k d : ℕ) → get_elem? ds k ≡ some d → get_elem? r (suc i + k) ≡ some (pos d))
        → get_elem? r (i + k) ≡ some (pos d)
    after_first r zero d e before after =
        ap (get_elem? r) {x = i + 0} {y = i} (omega arith)
        ∙ before i (omega arith)
        ∙ get_elem?-set_self arr i (pos x) (omega arith)
        ∙ ap (λ n. some (pos n)) (some_inj e)
    after_first r (suc k) d e before after =
        ap (get_elem? r) {x = i + suc k} {y = suc i + k} (omega arith) ∙ after k d e

too_many :
    (ds : List ℕ) (i : ℕ) (arr : List ℤ)
    → length arr < i + length ds
    → i ≤ length arr
    → write_dims (map pos ds) i arr ≡ none
unfolding write_dims write
too_many [] i arr h l = let bad : 1 ≤ 0 = omega arith in elim bad [ ]
too_many (x ∷ ds) i arr h l = elim (dec_lt i (length arr)) [
  | yes k ↦
      ap (λ o. o >>= write_dims (map pos ds) (suc i)) (if_true _ _ (lt→ltb i (length arr) k))
      ∙ too_many ds (suc i) (set arr i (pos x)) (omega (arith, length-set arr i (pos x)))
          (omega (arith, length-set arr i (pos x)))
  | no k ↦
      ap (λ o. o >>= write_dims (map pos ds) (suc i)) (if_false _ _ (not_lt→ltb i (length arr) k))
]

-- TensorShape of a vector of numbers that are not negative: either there are at most 8, and the
-- shape has these dimensions, or there are more, and the code writes outside its array.
of_vector-HasDims :
    (ds : List ℕ)
    → ((length ds ≤ max_dim) × (s : TensorShape) × (of_vector (map pos ds) ≡ some s) × HasDims s ds)
      ⊎ ((max_dim < length ds) × (of_vector (map pos ds) ≡ none))
unfolding of_vector write_dims
of_vector-HasDims ds =
    let build : List ℤ → TensorShape =
      λ arr. record { dims = arr; ndims = pos (length (map pos ds)) } in
    elim (dec_lt max_dim (length ds)) [
      | yes h ↦ inr (
        h,
        ap (λ o. o >>= λ arr. some (build arr))
            (too_many ds 0 zeros (omega (arith, h)) (omega arith)),
      )
      | no h ↦
          let (r, f, before, after) = write_dims-Reads ds 0 zeros (omega (arith, h)) in
          inl (
            omega (arith, h),
            build r,
            ap (λ o. o >>= λ arr. some (build arr)) f,
            (
              ap pos (length-map pos ds),
              λ k d e. ap (get_elem? r) {x = k} {y = 0 + k} (omega arith) ∙ after k d e,
            ),
          )
    ]

-- The shape of a scalar result.
pub one_element : num_elements (of_initializer_list (pos 1 ∷ [])) ≡ some (pos 1)
unfolding num_elements of_initializer_list copy_dims product_from mul_int64 int64
one_element = refl
