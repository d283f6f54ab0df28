-- ===== src/Math/Softmax/Row.antt =====
-- `softmax_f32` on a row of an array.
use scicompute.Base.{
  ℕ, zero, suc, ◌+◌, ◌-◌, ◌*◌, ◌≤◌, ◌<◌, ◌≡◌, ◌⊎◌, refl, sym, ap, ◌∙◌, inl, inr, Option, some, List,
  [], ◌∷◌, length, get_elem?, set, arith, if_true, lt→ltb, some_inj, get_elem?-some,
  get_elem?-set_self, get_elem?-set_ne, length-set, le_of_eq,
}
use scicompute.Base.Fallible.{◌>>=◌}
use scicompute.Math.Float.{Float, IsOrdered, max_of}
use scicompute.Math.Arrays.{put, fold_from}
use scicompute.Math.Reduction.Extremes.{Foremost, extreme-Foremost}
use scicompute.Math.Softmax.{max_loop, exp_loop, scale_loop, softmax_f32}
use scicompute.Math.Softmax.Segment.{
  segment, get_elem?-segment, length-segment, segment-cons, Outside, Outside-suc, written-first,
  first_or_after,
}

module _ {ℓ} {W : Type ℓ} ⦃fl : Float W⦄ where
  max_loop-fold_from :
      (k i n base : ℕ) (x : List W) (m : W)
      → i + k ≤ n
      → base + n ≤ length x
      → max_loop k i x base 1 m ≡ fold_from max_of k i (segment base n x) m
  unfolding max_loop fold_from
  max_loop-fold_from zero i n base x m h l = refl
  max_loop-fold_from (suc k) i n base x m h l =
      let (v, e) = get_elem?-some x (base + i * 1) (omega arith) in
      let f : get_elem? (segment base n x) i ≡ some v =
        get_elem?-segment base n i x (omega arith)
        ∙ ap (get_elem? x) {x = base + i} {y = base + i * 1} (omega arith)
        ∙ e in
      ap (λ o. o >>= λ v. max_loop k (suc i) x base 1 (max_of m v)) e
      ∙ max_loop-fold_from k (suc i) n base x (max_of m v) (omega arith) l
      ∙ sym (ap (λ o. o >>= λ v. fold_from max_of k (suc i) (segment base n x) (max_of m v)) f)

  -- The sum of the exponentials, from left to right.
  abbrev pub sum_exp : W → W → List W → W
  sum_exp m s [] = s
  sum_exp m s (v ∷ vs) = sum_exp m (fl.add s (fl.exponential (fl.sub v m))) vs

  exp_loop-sum_exp :
      (k i base : ℕ) (x out : List W) (m s : W)
      → base + i + k ≤ length x
      → base + i + k ≤ length out
      → (r : List W) × (exp_loop k i x out base 1 m s
          ≡ some (r, sum_exp m s (segment (base + i) k x)))
        × Outside (base + i) k out r
        × ((j : ℕ) (v : W)
            → i ≤ j
            → j < i + k
            → get_elem? x (base + j) ≡ some v
            → get_elem? r (base + j) ≡ some (fl.exponential (fl.sub v m)))
  unfolding exp_loop put
  exp_loop-sum_exp zero i base x out m s h l =
      (out, refl, (refl, λ j o. refl), λ j v o p e. absurd (omega (arith, o, p)))
  exp_loop-sum_exp (suc k) i base x out m s h l =
      let p = base + i * 1 in
      let (v, e) = get_elem?-some x p (omega arith) in
      let w = fl.exponential (fl.sub v m) in
      let here : get_elem? x (base + i) ≡ some v =
        ap (get_elem? x) {x = base + i} {y = p} (omega arith) ∙ e in
      let (r, made, outside, each) =
        exp_loop-sum_exp k (suc i) base x (set out p w) m (fl.add s w) (omega arith)
          (omega (arith, length-set out p w)) in
      let sums : sum_exp m (fl.add s w) (segment (base + suc i) k x)
          ≡ sum_exp m s (segment (base + i) (suc k) x) =
        ap (λ b. sum_exp m (fl.add s w) (segment b k x)) {x = base + suc i} {y = suc (base + i)}
          (omega arith)
        ∙ ap (sum_exp m s) (sym (segment-cons (base + i) k x v here)) in
      let next : List W → W → Option (List W × W) =
        λ q z. exp_loop k (suc i) x q base 1 m (fl.add s z) in
      (
        r,
        ap
              (λ o. o >>= λ v.
                put p (fl.exponential (fl.sub v m)) out >>= λ q. get_elem? q p >>= next q)
              e
            ∙ ap (λ o. o >>= λ q. get_elem? q p >>= next q)
                (if_true _ _ (lt→ltb p (length out) (omega arith)))
            ∙ ap (λ o. o >>= next (set out p w)) (get_elem?-set_self out p w (omega arith))
            ∙ made
            ∙ ap (λ z. some (r, z)) sums,
        Outside-suc base i k out r w outside,
        λ j u o q f. elim (first_or_after k o q) [
          | inl same ↦
              ap (λ a. get_elem? r (base + a)) (sym same)
              ∙ written-first base i k out r w outside (omega arith)
              ∙ ap (λ z. some (fl.exponential (fl.sub z m)))
                  (some_inj (sym here ∙ ap (λ a. get_elem? x (base + a)) same ∙ f))
          | inr after ↦ each j u after.0 after.1 f
        ],
      )

  scale_loop-each :
      (k i base : ℕ) (out : List W) (c : W)
      → base + i + k ≤ length out
      → (r : List W) × (scale_loop k i out base 1 c ≡ some r)
        × Outside (base + i) k out r
        × ((j : ℕ) (v : W)
            → i ≤ j
            → j < i + k
            → get_elem? out (base + j) ≡ some v
            → get_elem? r (base + j) ≡ some (fl.mul v c))
  unfolding scale_loop put
  scale_loop-each zero i base out c h =
      (out, refl, (refl, λ j o. refl), λ j v o p e. absurd (omega (arith, o, p)))
  scale_loop-each (suc k) i base out c h =
      let p = base + i * 1 in
      let (v, e) = get_elem?-some out p (omega arith) in
      let w = fl.mul v c in
      let here : get_elem? out (base + i) ≡ some v =
        ap (get_elem? out) {x = base + i} {y = p} (omega arith) ∙ e in
      let (r, made, outside, each) =
        scale_loop-each k (suc i) base (set out p w) c (omega (arith, length-set out p w)) in
      (
        r,
        ap (λ o. o >>= λ v. put p (fl.mul v c) out >>= λ q. scale_loop k (suc i) q base 1 c) e
            ∙ ap (λ o. o >>= λ q. scale_loop k (suc i) q base 1 c)
                (if_true _ _ (lt→ltb p (length out) (omega arith)))
            ∙ made,
        Outside-suc base i k out r w outside,
        λ j u o q f. elim (first_or_after k o q) [
          | inl same ↦
              ap (λ a. get_elem? r (base + a)) (sym same)
              ∙ written-first base i k out r w outside (omega arith)
              ∙ ap (λ z. some (fl.mul z c))
                  (some_inj (sym here ∙ ap (λ a. get_elem? out (base + a)) same ∙ f))
          | inr after ↦
              each j u after.0 after.1
                (get_elem?-set_ne out p (base + j) w (λ e. omega (arith, e, after.0)) ∙ f)
        ],
      )

  -- Each element of a row as softmax defines it: the exponential of its difference from the
  -- maximum m, times the inverse of the sum of these.
  abbrev pub share : W → List W → W → W
  share m row v = fl.mul (fl.exponential (fl.sub v m)) (fl.div fl.one (sum_exp m fl.nought row))

  pub softmax_f32-share :
      (ordered : IsOrdered W) (n base : ℕ) (x out : List W)
      → 1 ≤ n
      → base + n ≤ length x
      → base + n ≤ length out
      → (r : List W) × (m : W) × (softmax_f32 n base 1 x out ≡ some r)
        × Outside base n out r
        × Foremost fl.lt (segment base n x) n m
        × ((j : ℕ) (v : W)
            → j < n
            → get_elem? x (base + j) ≡ some v
            → get_elem? r (base + j) ≡ some (share m (segment base n x) v))
  unfolding softmax_f32
  softmax_f32-share ordered n base x out h k l =
      let seg = segment base n x in
      let (m, made, best) =
        extreme-Foremost fl.lt ordered.irrefl ordered.trans seg n h
          (le_of_eq (sym (length-segment base n x k))) in
      let (v, e) = get_elem?-some x base (omega arith) in
      let f : get_elem? seg 0 ≡ some v =
        get_elem?-segment base n 0 x (omega arith)
        ∙ ap (get_elem? x) {x = base + 0} {y = base} (omega arith)
        ∙ e in
      let maximum : max_loop (n - 1) 1 x base 1 v ≡ some m =
        max_loop-fold_from (n - 1) 1 n base x v (omega arith) k
        ∙ sym (ap (λ o. o >>= fold_from max_of (n - 1) 1 seg) f)
        ∙ made in
      let (q, summed, around, exponentials) =
        exp_loop-sum_exp n 0 base x out m fl.nought (omega arith) (omega arith) in
      let total = sum_exp m fl.nought (segment (base + 0) n x) in
      let (r, scaled, outside, each) =
        scale_loop-each n 0 base q (fl.div fl.one total) (omega (arith, around.0)) in
      (
        r,
        m,
        ap
              (λ o. o >>= λ first. max_loop (n - 1) 1 x base 1 first >>= λ max_val.
                exp_loop n 0 x out base 1 max_val fl.nought >>= λ (written, sum).
                scale_loop n 0 written base 1 (fl.div fl.one sum))
              e
            ∙ ap
                (λ o. o >>= λ max_val.
                  exp_loop n 0 x out base 1 max_val fl.nought >>= λ (written, sum).
                  scale_loop n 0 written base 1 (fl.div fl.one sum))
                maximum
            ∙ ap (λ o. o >>= λ (written, sum). scale_loop n 0 written base 1 (fl.div fl.one sum))
                summed
            ∙ scaled,
        (
          outside.0 ∙ around.0,
          λ j o.
              let o' : (j < base + 0) ⊎ (base + 0 + n ≤ j) = elim o [
                | inl a ↦ inl (omega arith)
                | inr a ↦ inr (omega arith)
              ] in
              outside.1 j o' ∙ around.1 j o',
        ),
        best,
        λ j u o g.
            each j (fl.exponential (fl.sub u m)) (omega arith) (omega arith)
              (exponentials j u (omega arith) (omega arith) g)
            ∙ ap
                (λ b. some (
                  fl.mul (fl.exponential (fl.sub u m))
                    (fl.div fl.one (sum_exp m fl.nought (segment b n x)))))
                {x = base + 0} {y = base} (omega arith),
      )
