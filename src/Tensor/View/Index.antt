-- ===== src/Tensor/View/Index.antt =====
-- The view of a tensor numbers its elements in row-major order.
use scicompute.Base.{
  ℕ, ◌+◌, ◌^◌, ◌<◌, ◌≡◌, refl, sym, ap, ◌∙◌, some, List, ◌∷◌, map, arith, some_inj,
}
use scicompute.Base.Int.{pos}
use scicompute.Base.Fallible.{◌>>=◌}
use scicompute.Core.Types.{DType, Layout, DeviceType}
use scicompute.Core.Shape.{TensorShape, num_elements}
use scicompute.Core.Shape.Rows.{
  volume, room, row_strides, HasDims, volume_le, num_elements-volume, strides-row_strides,
}
use scicompute.Tensor.{Tensor}
use scicompute.Tensor.View.{TensorView, of_shape, of_strides, view, offset_from, offset}
use scicompute.Tensor.View.Offsets.{
  InRange, position, position_lt, position_inj, indices_at, indices_at-position, offset_from-dot,
}

-- The view of a tensor of these dimensions.
abbrev pub row_view : Tensor → List ℕ → TensorView
row_view t ds =
    of_strides t.shape t.dtype t.device.device_type t.layout (map pos (row_strides ds)) t.address

pub of_shape-row_strides :
    (a : ℕ) (s : TensorShape) (ty : DType) (d : DeviceType) (l : Layout) (ds : List ℕ)
    → HasDims s ds
    → room ds < 2 ^ 63
    → of_shape a s ty d l ≡ some (of_strides s ty d l (map pos (row_strides ds)) a)
unfolding of_shape
of_shape-row_strides a s ty d l ds has small =
    ap (λ o. o >>= λ ss. some (of_strides s ty d l ss a)) (strides-row_strides s ds has small)

pub view-row_view :
    (t : Tensor) (ds : List ℕ)
    → HasDims t.shape ds
    → room ds < 2 ^ 63
    → view t ≡ some (row_view t ds)
unfolding view
view-row_view t ds has small =
    of_shape-row_strides t.address t.shape t.dtype t.device.device_type t.layout ds has small

pub offset-position :
    (v : TensorView) (is ds : List ℕ)
    → v.strides ≡ map pos (row_strides ds)
    → InRange is ds
    → room ds < 2 ^ 63
    → offset (map pos is) v ≡ some (position is ds)
unfolding offset
offset-position v is ds e range small =
    let below = position_lt is ds range in
    let bound = volume_le ds in
    ap (λ ss. offset_from (map pos is) ss 0) e
    ∙ offset_from-dot is (row_strides ds) 0 (omega arith)
    ∙ ap some {x = 0 + position is ds} (omega arith)

-- The view of a tensor of at least one dimension, whose extents have a product below 2^63 where an
-- extent of 0 counts as 1, numbers the elements. Indices in range have an offset below the number
-- of elements, and each number below it is the offset of the indices of one element and no other.
pub numbering :
    (t : Tensor) (d : ℕ) (ds : List ℕ)
    → HasDims t.shape (d ∷ ds)
    → room (d ∷ ds) < 2 ^ 63
    → (v : TensorView) × (n : ℕ) × (view t ≡ some v)
      × (num_elements t.shape ≡ some (pos n))
      × ((is : List ℕ) → InRange is (d ∷ ds) → (o : ℕ) × (offset (map pos is) v ≡ some o) × (o < n))
      × ((o : ℕ)
          → o < n
          → (is : List ℕ) × InRange is (d ∷ ds)
            × (offset (map pos is) v ≡ some o)
            × ((js : List ℕ) → InRange js (d ∷ ds) → offset (map pos js) v ≡ some o → js ≡ is))
numbering t d ds has small =
    let all = d ∷ ds in
    let v = row_view t all in
    let place : (is : List ℕ) → InRange is all → offset (map pos is) v ≡ some (position is all) =
      λ is range. offset-position v is all refl range small in
    (
      v,
      volume all,
      view-row_view t all has small,
      num_elements-volume t.shape d ds has small,
      λ is range. (position is all, place is range, position_lt is all range),
      λ o h.
          let (range, e) = indices_at-position o all h in
          (
            indices_at o all,
            range,
            place (indices_at o all) range ∙ ap some e,
            λ js range' f.
                position_inj js (indices_at o all) all range' range
                  (some_inj (sym (place js range') ∙ f) ∙ sym e),
          ),
    )
