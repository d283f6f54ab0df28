-- ===== src/Tensor/View/Tests.antt =====
-- The views of a tensor of two rows and three columns.
use scicompute.Base.{ℕ, ◌<◌, ◌≡◌, ◌≢◌, ◌↔◌, refl, true, some, List, [], ◌∷◌, map, arith}
use scicompute.Base.Int.{ℤ, pos}
use scicompute.Core.Shape.{num_elements}
use scicompute.Core.Shape.Rows.{row_strides}
use scicompute.Tensor.Samples.{tensor, shape-HasDims}
use scicompute.Tensor.View.{
  TensorView, view, swap, slice, transpose, offset, at, is_dense, is_contiguous,
}
use scicompute.Tensor.View.Offsets.{InRange}
use scicompute.Tensor.View.Index.{row_view, numbering}
use scicompute.Tensor.View.Swaps.{offset-transpose}
use scicompute.Tensor.View.Slices.{at-slice_first}
use scicompute.Tensor.View.Inner.{at-slice_second}
use scicompute.Tensor.View.Dense.{is_contiguous_iff}

numbering_example :
    (v : TensorView) × (n : ℕ) × (view tensor ≡ some v)
    × (num_elements tensor.shape ≡ some (pos n))
    × ((is : List ℕ)
        → InRange is (2 ∷ 3 ∷ [])
        → (o : ℕ) × (offset (map pos is) v ≡ some o) × (o < n))
    × ((o : ℕ)
        → o < n
        → (is : List ℕ) × InRange is (2 ∷ 3 ∷ [])
          × (offset (map pos is) v ≡ some o)
          × ((js : List ℕ) → InRange js (2 ∷ 3 ∷ []) → offset (map pos js) v ≡ some o → js ≡ is))
numbering_example = numbering tensor 2 (3 ∷ []) shape-HasDims (omega arith)

offset-transpose_example :
    (v w : TensorView) × (js : List ℤ) × (o : ℕ) × (view tensor ≡ some v)
    × (transpose 0 1 tensor ≡ some w)
    × (swap 0 1 (pos 1 ∷ pos 2 ∷ []) ≡ some js)
    × (offset (pos 1 ∷ pos 2 ∷ []) v ≡ some o)
    × (offset js w ≡ some o)
offset-transpose_example =
    offset-transpose tensor (1 ∷ 2 ∷ []) (2 ∷ 3 ∷ []) 0 1 shape-HasDims (omega arith) (omega arith)
      (omega arith) (omega arith, (omega arith, omega arith))

at-slice_first_example :
    (v w : TensorView) × (a : ℕ) × (view tensor ≡ some v)
    × (slice 0 (pos 1) (pos 2) tensor ≡ some w)
    × (at (pos 0 ∷ pos 2 ∷ []) w ≡ some a)
    × (at (pos 1 ∷ pos 2 ∷ []) v ≡ some a)
at-slice_first_example =
    at-slice_first tensor 2 1 2 0 (2 ∷ []) (3 ∷ []) shape-HasDims (omega arith) (omega arith)
      (omega arith) (omega arith, (omega arith, omega arith))

at-slice_second_example :
    (v w : TensorView) × (a b : ℕ) × (view tensor ≡ some v)
    × (slice 1 (pos 1) (pos 3) tensor ≡ some w)
    × (at (pos 1 ∷ pos 0 ∷ []) w ≡ some a)
    × (at (pos 1 ∷ pos 1 ∷ []) v ≡ some b)
    × (a ≢ b)
at-slice_second_example =
    at-slice_second tensor 2 3 1 3 1 0 shape-HasDims (omega arith) (omega arith) (omega arith)
      (omega arith) (omega arith, (omega arith, omega arith)) (omega arith)

is_contiguous_iff_example : (is_contiguous (row_view tensor (2 ∷ 3 ∷ [])) ≡ some true) ↔ (
    (is_dense tensor.layout ≡ true)
    × (map pos (row_strides (2 ∷ 3 ∷ [])) ≡ map pos (row_strides (2 ∷ 3 ∷ []))))
is_contiguous_iff_example =
    is_contiguous_iff (row_view tensor (2 ∷ 3 ∷ [])) (2 ∷ 3 ∷ []) shape-HasDims (omega arith) refl
