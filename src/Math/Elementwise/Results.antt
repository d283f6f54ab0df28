-- ===== src/Math/Elementwise/Results.antt =====
-- What the elementwise kernels compute, and on which element types they can.
use scicompute.Base.{
  ℕ, ◌*◌, ◌/◌, ◌%◌, ◌^◌, ◌≤◌, ◌<◌, ◌≡◌, refl, sym, ap, subst, ◌∙◌, inl, inr, Option, some, none,
  List, length, get_elem?, get_elem?-lt, arith, Option-cases,
}
use scicompute.Base.Fallible.{◌>>=◌}
use scicompute.Base.Int.{pos, to_size}
use scicompute.Core.Types.{float32, dtype_size}
use scicompute.Core.Shape.{num_elements}
use scicompute.Tensor.Data.{byte_size}
use scicompute.Math.Float.{Float, clamped}
use scicompute.Math.Arrays.{FloatTensor, element_count, create, with_output, zip_into}
use scicompute.Math.Arrays.Pointwise.{zip_into-Zipped, zip_into-fits, map_into-zip_into}
use scicompute.Math.Elementwise.{
  unary, add_f32, sub_f32, mul_f32, div_f32, add, sub, mul, div, add_scalar, negate, abs, sqrt,
  rsqrt, pow, clamp,
}

module _ {ℓ} {W : Type ℓ} where
  -- A tensor of n elements of type float32, each in its place.
  abbrev pub Holds : FloatTensor W → ℕ → Type 0
  Holds a n = (num_elements a.shape ≡ some (pos n)) × (a.dtype ≡ float32) × (length a.floats ≡ n)

  -- The outcome is a tensor like a whose elements are f of those of a and b.
  abbrev pub Pairwise : (W → W → W) → (a b : FloatTensor W) → Option (FloatTensor W) → Type ℓ
  Pairwise f a b outcome =
      (r : FloatTensor W) × (outcome ≡ some r)
      × (r.shape ≡ a.shape)
      × (r.dtype ≡ a.dtype)
      × (length r.floats ≡ length a.floats)
      × ((j : ℕ) (x y : W)
          → get_elem? a.floats j ≡ some x
          → get_elem? b.floats j ≡ some y
          → get_elem? r.floats j ≡ some (f x y))

  abbrev pub Each : (W → W) → FloatTensor W → Option (FloatTensor W) → Type ℓ
  Each f a outcome =
      (r : FloatTensor W) × (outcome ≡ some r)
      × (r.shape ≡ a.shape)
      × (r.dtype ≡ a.dtype)
      × (length r.floats ≡ length a.floats)
      × ((j : ℕ) (x : W) → get_elem? a.floats j ≡ some x → get_elem? r.floats j ≡ some (f x))

module _ {ℓ} {W : Type ℓ} (fresh : ℕ → List W) (sized : (n : ℕ) → length (fresh n) ≡ n) where
  created : FloatTensor W → ℕ → FloatTensor W
  created a n = record a { floats = fresh ((n * dtype_size a.dtype) % 2 ^ 64 / 4) }

  with_output-some :
      (a : FloatTensor W) (n : ℕ) (kernel : List W → ℕ → Option (List W))
      → num_elements a.shape ≡ some (pos n)
      → with_output fresh a kernel
        ≡ (kernel (created a n).floats n >>= λ r. some (record a { floats = r }))
  unfolding with_output create byte_size created
  with_output-some a n kernel e =
      let rest : FloatTensor W → Option (FloatTensor W) = λ out.
        element_count a >>= λ n. kernel out.floats n >>= λ r. some (record out { floats = r }) in
      ap
        (λ o.
          (o >>= λ n. some ((to_size n * dtype_size a.dtype) % 2 ^ 64))
          >>= (λ size. some (record a { floats = fresh (size / 4) }))
          >>= rest)
        e
      ∙ ap
          (λ o. (o >>= λ k. some (to_size k)) >>= λ k.
            kernel (created a n).floats k >>= λ r. some (record a { floats = r }))
          e

  zipped :
      (f : W → W → W) (a b : FloatTensor W) (n : ℕ)
      → Holds a n
      → Holds b n
      → n * 4 < 2 ^ 64
      → Pairwise f a b (with_output fresh a (λ out n. zip_into f n 0 a.floats b.floats out))
  unfolding created dtype_size
  zipped f a b n (count, type, long) (_, _, wide) small =
      let kernel : List W → ℕ → Option (List W) = λ out n. zip_into f n 0 a.floats b.floats out in
      let out = (created a n).floats in
      let room : length out ≡ n =
        sized ((n * dtype_size a.dtype) % 2 ^ 64 / 4)
        ∙ ap (λ ty. (n * dtype_size ty) % 2 ^ 64 / 4) type
        ∙ omega arith in
      let (r, made, (same, before, after)) =
        zip_into-Zipped f n 0 a.floats b.floats out (omega (arith, long)) (omega (arith, wide))
          (omega (arith, room)) in
      (
        record a { floats = r },
        with_output-some a n kernel count
            ∙ ap (λ o. o >>= λ r. some (record a { floats = r })) made,
        refl,
        refl,
        same ∙ room ∙ sym long,
        λ j x y e g. after j x y (omega arith) (omega (arith, get_elem?-lt a.floats j e, long)) e g,
      )

  -- Where a float does not fit into an element, the output is too short.
  narrow :
      (f : W → W → W) (a b : FloatTensor W) (n : ℕ)
      → num_elements a.shape ≡ some (pos n)
      → 1 ≤ n
      → n * 4 < 2 ^ 64
      → dtype_size a.dtype ≤ 2
      → with_output fresh a (λ out n. zip_into f n 0 a.floats b.floats out) ≡ none
  unfolding created
  narrow f a b n e one small h =
      let kernel : List W → ℕ → Option (List W) = λ out n. zip_into f n 0 a.floats b.floats out in
      let out = (created a n).floats in
      let half : n * dtype_size a.dtype ≤ n * 2 = halved n (dtype_size a.dtype) h in
      let short : length out < n =
        subst (λ (k : ℕ). k < n) (sym (sized ((n * dtype_size a.dtype) % 2 ^ 64 / 4)))
          (omega arith) in
      with_output-some a n kernel e ∙ elim (Option-cases (kernel out n)) [
        | inl o ↦ ap (λ o. o >>= λ r. some (record a { floats = r })) o
        | inr (r, o) ↦
            let fits = zip_into-fits f n 0 a.floats b.floats out r (omega arith) o in
            absurd (omega arith)
      ]
    where
      halved : (n s : ℕ) → s ≤ 2 → n * s ≤ n * 2
      halved n s h = grind arith

module _ {ℓ} {W : Type ℓ} ⦃fl : Float W⦄ (fresh : ℕ → List W)
    (sized : (n : ℕ) → length (fresh n) ≡ n) where
  -- add, sub, mul and div of two tensors of n elements of type float32, n below 2^62, where a new
  -- block of n floats holds n, return a tensor of the shape of the first whose elements are the
  -- sums, differences, products and quotients of the elements in the same place.
  pub binary_lem :
      (a b : FloatTensor W) (n : ℕ)
      → Holds a n
      → Holds b n
      → n < 2 ^ 62
      → Pairwise fl.add a b (add fresh a b)
        × Pairwise fl.sub a b (sub fresh a b)
        × Pairwise fl.mul a b (mul fresh a b)
        × Pairwise fl.div a b (div fresh a b)
  unfolding add add_f32 sub sub_f32 mul mul_f32 div div_f32
  binary_lem a b n h k small =
      let each : (f : W → W → W)
          → Pairwise f a b (with_output fresh a (λ out n. zip_into f n 0 a.floats b.floats out)) =
        λ f. zipped fresh sized f a b n h k (omega arith) in
      (each fl.add, each fl.sub, each fl.mul, each fl.div)

  mapped :
      (f : W → W) (a : FloatTensor W) (n : ℕ) → Holds a n → n < 2 ^ 62 → Each f a (unary fresh f a)
  unfolding unary
  mapped f a n h small =
      let (r, made, shape, type, long, each) =
        zipped fresh sized (λ x y. f x) a a n h h (omega arith) in
      (
        r,
        ap (with_output fresh a) (λ i out n. map_into-zip_into f n 0 a.floats out i) ∙ made,
        shape,
        type,
        long,
        λ j x e. each j x x e e,
      )

  -- negate, abs, sqrt, rsqrt, pow, clamp and add_scalar of a tensor of n elements of type float32,
  -- n below 2^62, where a new block of n floats holds n, return a tensor of its shape, each element
  -- of which is the operation of the one in the same place.
  pub unary_lem :
      (s low high : W) (a : FloatTensor W) (n : ℕ)
      → Holds a n
      → n < 2 ^ 62
      → Each fl.neg a (negate fresh a)
        × Each fl.magnitude a (abs fresh a)
        × Each fl.root a (sqrt fresh a)
        × Each (λ x. fl.div fl.one (fl.root x)) a (rsqrt fresh a)
        × Each (λ x. fl.power x s) a (pow fresh s a)
        × Each (clamped low high) a (clamp fresh low high a)
        × Each (λ x. fl.add x s) a (add_scalar fresh s a)
  unfolding negate abs sqrt rsqrt pow clamp add_scalar
  unary_lem s low high a n h small =
      let each : (f : W → W) → Each f a (unary fresh f a) = λ f. mapped f a n h small in
      (
        each fl.neg,
        each fl.magnitude,
        each fl.root,
        each (λ x. fl.div fl.one (fl.root x)),
        each (λ x. fl.power x s),
        each (clamped low high),
        each (λ x. fl.add x s),
      )

  -- add, sub, mul and div ignore the element type: for at least one element, fewer than 2^62, of a
  -- type of one or two bytes each of them accesses memory outside the arrays, if the new block of n
  -- floats holds n.
  pub narrow_lem :
      (a b : FloatTensor W) (n : ℕ)
      → num_elements a.shape ≡ some (pos n)
      → 1 ≤ n
      → n < 2 ^ 62
      → dtype_size a.dtype ≤ 2
      → (add fresh a b ≡ none)
        × (sub fresh a b ≡ none)
        × (mul fresh a b ≡ none)
        × (div fresh a b ≡ none)
  unfolding add add_f32 sub sub_f32 mul mul_f32 div div_f32
  narrow_lem a b n e one small h =
      let each : (f : W → W → W)
          → with_output fresh a (λ out n. zip_into f n 0 a.floats b.floats out) ≡ none =
        λ f. narrow fresh sized f a b n e one (omega arith) h in
      (each fl.add, each fl.sub, each fl.mul, each fl.div)
