-- ===== src/Math/Reduction/Results.antt =====
-- What the reductions of a whole tensor return.
use scicompute.Base.{
  ℕ, zero, suc, ◌*◌, ◌/◌, ◌%◌, ◌^◌, ◌≤◌, ◌≡◌, refl, sym, ap, ◌∙◌, Option, some, List, [], ◌∷◌,
  length, get_elem?, drop, arith,
}
use scicompute.Base.Fallible.{◌>>=◌}
use scicompute.Base.Int.{pos, negsuc, to_size}
use scicompute.Core.Types.{DType, float32, dtype_size}
use scicompute.Core.Expected.{of_value}
use scicompute.Core.Shape.{TensorShape, of_initializer_list}
use scicompute.Core.Shape.Writes.{one_element}
use scicompute.Tensor.Data.{byte_size}
use scicompute.Math.Float.{Float, IsOrdered}
use scicompute.Math.Arrays.{FloatTensor, element_count, create, put, fold_from}
use scicompute.Math.Elementwise.Results.{Holds}
use scicompute.Math.Reduction.{
  sum_f32, max_f32, min_f32, mean_f32, var_f32, add_square, add_power, argmax_f32, scalar_output,
  sum, mean, max, min, prod, std, var, norm, argmax,
}
use scicompute.Math.Reduction.Extremes.{
  Foremost, FirstMax, max_f32-Foremost, min_f32-Foremost, argmax_f32-FirstMax,
}

-- The shape of the results.
abbrev pub one_shape : TensorShape
one_shape = of_initializer_list (pos 1 ∷ [])

module _ {ℓ} {W : Type ℓ} where
  -- The outcome is a tensor of one element of type float32.
  abbrev pub Scalar : Option (FloatTensor W) → W → Type ℓ
  Scalar outcome x = outcome ≡ some (record { shape = one_shape; dtype = float32; floats = x ∷ [] })

  abbrev pub fold_left : {B : Type ℓ} → (B → W → B) → B → List W → B
  fold_left f b [] = b
  fold_left f b (x ∷ xs) = fold_left f (f b x) xs

  fold_from-fold_left :
      {B : Type ℓ} (f : B → W → B) (xs values : List W) (n i : ℕ) (b : B)
      → n ≡ length xs
      → drop i values ≡ xs
      → fold_from f n i values b ≡ some (fold_left f b xs)
  unfolding fold_from
  fold_from-fold_left f [] values zero i b e g = refl
  fold_from-fold_left f [] values (suc n) i b e g = let bad : 1 ≤ 0 = omega arith in elim bad [ ]
  fold_from-fold_left f (x ∷ xs) values zero i b e g = let bad : 1 ≤ 0 = omega arith in elim bad [ ]
  fold_from-fold_left f (x ∷ xs) values (suc n) i b e g =
      let (here, rest) = dropped i values x xs g in
      ap (λ o. o >>= λ x. fold_from f n (suc i) values (f b x)) here
      ∙ fold_from-fold_left f xs values n (suc i) (f b x) (omega arith) rest
    where
      dropped :
          (i : ℕ) (values : List W) (x : W) (xs : List W)
          → drop i values ≡ x ∷ xs
          → (get_elem? values i ≡ some x) × (drop (suc i) values ≡ xs)
      dropped zero [] x xs g = cc
      dropped zero (y ∷ ys) x xs g = (ap some (cc g), cc g)
      dropped (suc i) [] x xs g = cc
      dropped (suc i) (y ∷ ys) x xs g = dropped i ys x xs g

  put-one : (out : List W) (x : W) → length out ≡ 1 → put 0 x out ≡ some (x ∷ [])
  unfolding put
  put-one [] x e = let bad : 1 ≤ 0 = omega arith in elim bad [ ]
  put-one (y ∷ []) x e = refl
  put-one (y ∷ z ∷ ys) x e = let bad : 1 ≤ 0 = omega arith in elim bad [ ]

module _ {ℓ} {W : Type ℓ} ⦃fl : Float W⦄ (fresh : ℕ → List W)
    (sized : (n : ℕ) → length (fresh n) ≡ n) where
  scalar_output-Scalar :
      (a : FloatTensor W) (n : ℕ) (x : W) (kernel : ℕ → Option W)
      → Holds a n
      → kernel n ≡ some x
      → Scalar (scalar_output fresh a kernel) x
  unfolding scalar_output create byte_size dtype_size
  scalar_output-Scalar a n x kernel (count, type, long) e =
      let finish : FloatTensor W → Option (FloatTensor W) = λ out.
        element_count a >>= kernel >>= λ x.
        put 0 x out.floats >>= λ r. some (record out { floats = r }) in
      let out : DType → FloatTensor W = λ ty. record {
        shape = one_shape;
        dtype = ty;
        floats = fresh ((1 * dtype_size ty) % 2 ^ 64 / 4);
      } in
      ap
        (λ o.
          (o >>= λ n. some ((to_size n * dtype_size a.dtype) % 2 ^ 64))
          >>= (λ size.
              some (record { shape = one_shape; dtype = a.dtype; floats = fresh (size / 4) }))
          >>= finish)
        one_element
      ∙ ap (λ ty. finish (out ty)) type
      ∙ ap
          (λ o. (o >>= λ k. some (to_size k)) >>= kernel >>= λ x.
            put 0 x (out float32).floats >>= λ r. some (record (out float32) { floats = r }))
          count
      ∙ ap
          (λ o. o >>= λ x.
            put 0 x (out float32).floats >>= λ r. some (record (out float32) { floats = r }))
          e
      ∙ ap (λ o. o >>= λ r. some (record (out float32) { floats = r }))
          (put-one (out float32).floats x (sized (4 % 2 ^ 64 / 4)))

  -- sum, prod, mean, var, std and norm of a tensor of n elements of type float32 return one float,
  -- if the new block of n floats holds n: the sum and the product from left to right, the sum
  -- divided by n, the sum of the squares of the differences from that divided by n, the root of
  -- it, and the p-th root of the sum of the p-th powers of the magnitudes.
  pub sums_lem :
      (p : W) (a : FloatTensor W) (n : ℕ)
      → Holds a n
      → (average variance : W) × (average
          ≡ fl.div (fold_left fl.add fl.nought a.floats) (fl.of_size n))
        × (variance
            ≡ fl.div
                (fold_left
                  (λ s x. fl.add s (fl.mul (fl.sub x average) (fl.sub x average)))
                  fl.nought
                  a.floats)
                (fl.of_size n))
        × Scalar (sum fresh a) (fold_left fl.add fl.nought a.floats)
        × Scalar (prod fresh a) (fold_left fl.mul fl.one a.floats)
        × Scalar (mean fresh a) average
        × Scalar (var fresh a) variance
        × Scalar (std fresh a) (fl.root variance)
        × Scalar (norm fresh p a) (
            fl.power
              (fold_left (λ s x. fl.add s (fl.power (fl.magnitude x) p)) fl.nought a.floats)
              (fl.div fl.one p))
  unfolding sum prod mean var std norm sum_f32 mean_f32 var_f32
  sums_lem p a n h =
      let all : (f : W → W → W) (b : W)
          → fold_from f n 0 a.floats b ≡ some (fold_left f b a.floats) =
        λ f b. fold_from-fold_left f a.floats a.floats n 0 b (sym h.2) refl in
      let average = fl.div (fold_left fl.add fl.nought a.floats) (fl.of_size n) in
      let variance = fl.div (fold_left (add_square average) fl.nought a.floats) (fl.of_size n) in
      let averaged : mean_f32 a.floats n ≡ some average =
        ap (λ o. o >>= λ s. some (fl.div s (fl.of_size n))) (all fl.add fl.nought) in
      let varied : var_f32 a.floats n ≡ some variance =
        ap
          (λ o. o >>= λ m.
            fold_from (add_square m) n 0 a.floats fl.nought >>= λ v. some (fl.div v (fl.of_size n)))
          averaged
        ∙ ap (λ o. o >>= λ v. some (fl.div v (fl.of_size n)))
            (all (add_square average) fl.nought) in
      (
        average,
        variance,
        refl,
        refl,
        scalar_output-Scalar a n _ (sum_f32 a.floats) h (all fl.add fl.nought),
        scalar_output-Scalar a n _ (λ n. fold_from fl.mul n 0 a.floats fl.one) h
            (all fl.mul fl.one),
        scalar_output-Scalar a n _ (mean_f32 a.floats) h averaged,
        scalar_output-Scalar a n _ (var_f32 a.floats) h varied,
        scalar_output-Scalar a n _ (λ n. var_f32 a.floats n >>= λ v. some (fl.root v)) h
            (ap (λ o. o >>= λ v. some (fl.root v)) varied),
        scalar_output-Scalar a n _
            (λ n. fold_from (add_power p) n 0 a.floats fl.nought >>= λ s.
              some (fl.power s (fl.div fl.one p)))
            h
            (ap (λ o. o >>= λ s. some (fl.power s (fl.div fl.one p)))
              (all (add_power p) fl.nought)),
      )

  module _ (ordered : IsOrdered W) where
    -- max, min and argmax(-1) of a tensor of n elements of type float32, at least one, where
    -- floats are ordered as they are without NaN and the new block of n floats holds n: max returns
    -- an element that no element exceeds, min one that exceeds no element, and argmax the least
    -- index of a greatest element.
    pub extremes_lem :
        (a : FloatTensor W) (n : ℕ)
        → Holds a n
        → 1 ≤ n
        → ((m : W) × Scalar (max fresh a) m × Foremost fl.lt a.floats n m)
          × ((m : W) × Scalar (min fresh a) m × Foremost (λ x y. fl.lt y x) a.floats n m)
          × ((i : ℕ) × (m : W) × (argmax fresh (negsuc 0) a ≡ some (of_value i))
              × FirstMax ordered a.floats n i m)
    unfolding max min argmax
    extremes_lem a n h one =
        let (m, made, best) = max_f32-Foremost ordered a.floats n one (omega (arith, h.2)) in
        let (l, found, least) = min_f32-Foremost ordered a.floats n one (omega (arith, h.2)) in
        let (i, g, index, first) =
          argmax_f32-FirstMax ordered a.floats n one (omega (arith, h.2)) in
        (
          (m, scalar_output-Scalar a n m (max_f32 a.floats) h made, best),
          (l, scalar_output-Scalar a n l (min_f32 a.floats) h found, least),
          (
            i,
            g,
            ap
                  (λ o. (o >>= λ k. some (to_size k)) >>= argmax_f32 a.floats >>= λ i.
                    some (of_value i))
                  h.0
                ∙ ap (λ o. o >>= λ i. some (of_value i)) index,
            first,
          ),
        )
