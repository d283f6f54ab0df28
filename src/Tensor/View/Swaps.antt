-- ===== src/Tensor/View/Swaps.antt =====
-- `transpose`: the same elements under exchanged indices.
use scicompute.Base.{
  ℕ, zero, suc, ◌+◌, ◌*◌, ◌^◌, ◌<◌, ◌≡◌, refl, sym, ap, ◌∙◌, some, List, [], ◌∷◌, map, length,
  get_elem?, set, arith, some_inj, ℕ_discrete, get_elem?-set_self, get_elem?-set_ne, get_elem?-some,
  get_elem?-lt,
}
use scicompute.Base.Int.{ℤ, pos}
use scicompute.Base.Fallible.{◌>>=◌}
use scicompute.Core.Types.{strided}
use scicompute.Core.Shape.{TensorShape, strides}
use scicompute.Core.Shape.Rows.{
  room, volume_le, row_strides, HasDims, strides-row_strides, get_elem?-map_pos, length-row_strides,
}
use scicompute.Tensor.{Tensor}
use scicompute.Tensor.View.{TensorView, of_strides, view, swap, swap_dims, transpose, offset}
use scicompute.Tensor.View.Offsets.{dot, InRange, position, position_lt, offset_from-dot}
use scicompute.Tensor.View.Index.{row_view, view-row_view, offset-position}

abbrev exchanged : ℕ → ℕ → ℕ → ℕ → List ℕ → List ℕ
exchanged i j a b xs = set (set xs i b) j a

map_pos-set : (xs : List ℕ) (i x : ℕ) → set (map pos xs) i (pos x) ≡ map pos (set xs i x)
map_pos-set [] i x = refl
map_pos-set (y ∷ ys) zero x = refl
map_pos-set (y ∷ ys) (suc i) x = ap (λ l. pos y ∷ l) (map_pos-set ys i x)

swap-map_pos :
    (xs : List ℕ) (i j a b : ℕ)
    → get_elem? xs i ≡ some a
    → get_elem? xs j ≡ some b
    → swap i j (map pos xs) ≡ some (map pos (exchanged i j a b xs))
unfolding swap
swap-map_pos xs i j a b e f =
    ap (λ o. o >>= λ x. get_elem? (map pos xs) j >>= λ y. some (set (set (map pos xs) i y) j x))
      (get_elem?-map_pos xs i a e)
    ∙ ap (λ o. o >>= λ y. some (set (set (map pos xs) i y) j (pos a))) (get_elem?-map_pos xs j b f)
    ∙ ap (λ l. some (set l j (pos a))) (map_pos-set xs i b)
    ∙ ap some (map_pos-set (set xs i b) j a)

dot-set :
    (is ss : List ℕ) (k i s b t : ℕ)
    → get_elem? is k ≡ some i
    → get_elem? ss k ≡ some s
    → dot (set is k b) (set ss k t) + i * s ≡ dot is ss + b * t
dot-set [] ss k i s b t e f = cc
dot-set (x ∷ is) [] k i s b t e f = cc
dot-set (x ∷ is) (y ∷ ss) zero i s b t e f =
    let e' = some_inj e in
    let f' = some_inj f in
    let same : x * y ≡ i * s = ap (λ (n : ℕ). n * y) e' ∙ ap (λ (n : ℕ). i * n) f' in
    omega (arith, same)
dot-set (x ∷ is) (y ∷ ss) (suc k) i s b t e f = omega (arith, dot-set is ss k i s b t e f)

get_elem?-set_other :
    (xs : List ℕ) (i j b : ℕ)
    → get_elem? xs j ≡ some b
    → i < length xs
    → get_elem? (set xs i b) j ≡ some b
get_elem?-set_other xs i j b e l = elim (ℕ_discrete i j) [
  | yes same ↦ ap (get_elem? (set xs i b)) (sym same) ∙ get_elem?-set_self xs i b l
  | no other ↦ get_elem?-set_ne xs i j b other ∙ e
]

-- Exchanging two places in both lists keeps the sum of the products.
dot-exchanged :
    (is ss : List ℕ) (i j a b s t : ℕ)
    → get_elem? is i ≡ some a
    → get_elem? is j ≡ some b
    → get_elem? ss i ≡ some s
    → get_elem? ss j ≡ some t
    → dot (exchanged i j a b is) (exchanged i j s t ss) ≡ dot is ss
dot-exchanged is ss i j a b s t e f g h =
    let first = dot-set is ss i a s b t e g in
    let second =
      dot-set (set is i b) (set ss i t) j b t a s
        (get_elem?-set_other is i j b f (get_elem?-lt is i e))
        (get_elem?-set_other ss i j t h (get_elem?-lt ss i g)) in
    omega (arith, first, second)

swap_dims-some :
    (s : TensorShape) (ds : List ℕ) (i j : ℕ)
    → HasDims s ds
    → i < length ds
    → j < length ds
    → (arr : List ℤ) × (swap_dims i j s ≡ some (record s { dims = arr }))
unfolding swap swap_dims
swap_dims-some s ds i j (n, reads) h k =
    let (a, e) = get_elem?-some ds i h in
    let (b, f) = get_elem?-some ds j k in
    (
      set (set s.dims i (pos b)) j (pos a),
      ap
            (λ o.
              (o >>= λ x. get_elem? s.dims j >>= λ y. some (set (set s.dims i y) j x)) >>= λ arr.
              some (record s { dims = arr }))
            (reads i a e)
          ∙ ap
              (λ o. (o >>= λ y. some (set (set s.dims i y) j (pos a))) >>= λ arr.
                some (record s { dims = arr }))
              (reads j b f),
    )

length-InRange : (is ds : List ℕ) → InRange is ds → length is ≡ length ds
length-InRange [] [] h = refl
length-InRange [] (d ∷ ds) h = elim h [ ]
length-InRange (i ∷ is) [] h = elim h [ ]
length-InRange (i ∷ is) (d ∷ ds) (h, hs) = ap suc (length-InRange is ds hs)

transpose-some :
    (t : Tensor) (ds : List ℕ) (i j s u : ℕ)
    → HasDims t.shape ds
    → room ds < 2 ^ 63
    → i < length ds
    → j < length ds
    → get_elem? (row_strides ds) i ≡ some s
    → get_elem? (row_strides ds) j ≡ some u
    → (shape : TensorShape) × (transpose i j t
        ≡ some (
            of_strides shape t.dtype t.device.device_type strided
              (map pos (exchanged i j s u (row_strides ds)))
              t.address))
unfolding transpose
transpose-some t ds i j s u has small h k e f =
    let (arr, g) = swap_dims-some t.shape ds i j has h k in
    let shape : TensorShape = record (t.shape) { dims = arr } in
    let build : List ℤ → TensorView =
      λ ss. of_strides shape t.dtype t.device.device_type strided ss t.address in
    (
      shape,
      ap
            (λ o. o >>= λ new_shape. strides t.shape >>= λ ss. swap i j ss >>= λ new_strides.
              some
                (of_strides new_shape t.dtype t.device.device_type strided new_strides t.address))
            g
          ∙ ap (λ o. o >>= λ ss. swap i j ss >>= λ ns. some (build ns))
              (strides-row_strides t.shape ds has small)
          ∙ ap (λ o. o >>= λ ns. some (build ns)) (swap-map_pos (row_strides ds) i j s u e f),
    )

-- In a tensor whose extents have a product below 2^63, an extent of 0 counting as 1, transpose(i, j)
-- shows the same elements: the offset of indices in range in the view equals the offset of the
-- indices exchanged at i and j in the transposed view.
pub offset-transpose :
    (t : Tensor) (is ds : List ℕ) (i j : ℕ)
    → HasDims t.shape ds
    → room ds < 2 ^ 63
    → i < length ds
    → j < length ds
    → InRange is ds
    → (v w : TensorView) × (js : List ℤ) × (o : ℕ) × (view t ≡ some v)
      × (transpose i j t ≡ some w)
      × (swap i j (map pos is) ≡ some js)
      × (offset (map pos is) v ≡ some o)
      × (offset js w ≡ some o)
unfolding offset
offset-transpose t is ds i j has small h k range =
    let same = length-InRange is ds range in
    let width = length-row_strides ds in
    let (a, e) = get_elem?-some is i (omega arith) in
    let (b, f) = get_elem?-some is j (omega arith) in
    let (s, g) = get_elem?-some (row_strides ds) i (omega arith) in
    let (u, l) = get_elem?-some (row_strides ds) j (omega arith) in
    let (shape, made) = transpose-some t ds i j s u has small h k g l in
    let equal = dot-exchanged is (row_strides ds) i j a b s u e f g l in
    let below = position_lt is ds range in
    let bound = volume_le ds in
    let moved = exchanged i j a b is in
    let turned = exchanged i j s u (row_strides ds) in
    (
      row_view t ds,
      of_strides shape t.dtype t.device.device_type strided (map pos turned) t.address,
      map pos moved,
      position is ds,
      view-row_view t ds has small,
      made,
      swap-map_pos is i j a b e f,
      offset-position (row_view t ds) is ds refl range small,
      offset_from-dot moved turned 0 (omega (arith, equal))
          ∙ ap some {x = 0 + dot moved turned} (omega (arith, equal)),
    )
