-- ===== src/Tensor/View/Slices.antt =====
-- `slice`: along the first dimension, and along another one.
use scicompute.Base.{
  ℕ, zero, suc, ◌+◌, ◌-◌, ◌*◌, ◌%◌, ◌^◌, ◌≤◌, ◌<◌, ◌≡◌, refl, sym, ap, ◌∙◌, some, List, ◌∷◌, map,
  max, length, get_elem?, set, arith, add_size, get_elem?-lt,
}
use scicompute.Base.Int.{ℤ, pos, mul_int64, mul_int64-pos, add_int64, int64, to_size}
use scicompute.Base.Fallible.{◌>>=◌}
use scicompute.Core.Types.{DType, dtype_size}
use scicompute.Core.Shape.{strides, set_dim}
use scicompute.Core.Shape.Rows.{
  volume, room, volume_le, room_pos, row_strides, HasDims, strides-row_strides, get_elem?-map_pos,
}
use scicompute.Core.Shape.Writes.{set_dim-HasDims}
use scicompute.Tensor.{Tensor}
use scicompute.Tensor.View.{
  TensorView, of_shape, of_strides, view, minus_int64, slice, offset, at, advance,
}
use scicompute.Tensor.View.Offsets.{InRange, position}
use scicompute.Tensor.View.Index.{row_view, view-row_view, offset-position, of_shape-row_strides}

minus_int64-pos : (a b : ℕ) → b ≤ a → a < 2 ^ 63 → minus_int64 (pos a) (pos b) ≡ some (pos (a - b))
unfolding minus_int64 add_int64 int64
minus_int64-pos a zero h k = ap (λ n. some (pos n)) {x = a} (omega arith)
minus_int64-pos a (suc b) h k = ground arith

-- What slice gives for a range within the extent at k: the rest is as in the tensor.
pub slice-some :
    (t : Tensor) (ds es : List ℕ) (k d u start stop : ℕ)
    → HasDims t.shape ds
    → room ds < 2 ^ 63
    → room es < 2 ^ 63
    → get_elem? ds k ≡ some d
    → get_elem? (row_strides ds) k ≡ some u
    → es ≡ set ds k (stop - start)
    → length es ≡ length ds
    → start ≤ stop
    → stop < 2 ^ 63
    → start * u < 2 ^ 63
    → (w : TensorView) × (slice k (pos start) (pos stop) t ≡ some w)
      × (w.data_ptr ≡ advance t.address (start * u) t.dtype)
      × (w.dtype ≡ t.dtype)
      × (w.strides ≡ map pos (row_strides es))
unfolding slice
slice-some t ds es k d u start stop has small small' e f same len h l fits =
    let (r, g, has') =
      set_dim-HasDims t.shape ds es k d (stop - start) has
        (get_elem?-lt t.shape.dims k (has.1 k d e)) same len e in
    let base = advance t.address (start * u) t.dtype in
    (
      of_strides r t.dtype t.device.device_type t.layout (map pos (row_strides es)) base,
      ap
            (λ o. o >>= λ extent. set_dim k extent t.shape >>= λ new_shape. strides t.shape >>= λ s.
              get_elem? s k >>= λ stride. mul_int64 (pos start) stride >>= λ offset.
              of_shape (advance t.address (to_size offset) t.dtype) new_shape t.dtype
                t.device.device_type t.layout)
            (minus_int64-pos stop start h l)
          ∙ ap
              (λ o. o >>= λ new_shape. strides t.shape >>= λ s. get_elem? s k >>= λ stride.
                mul_int64 (pos start) stride >>= λ offset.
                of_shape (advance t.address (to_size offset) t.dtype) new_shape t.dtype
                  t.device.device_type t.layout)
              g
          ∙ ap
              (λ o. o >>= λ s. get_elem? s k >>= λ stride.
                mul_int64 (pos start) stride >>= λ offset.
                of_shape (advance t.address (to_size offset) t.dtype) r t.dtype t.device.device_type
                  t.layout)
              (strides-row_strides t.shape ds has small)
          ∙ ap
              (λ o. o >>= λ stride. mul_int64 (pos start) stride >>= λ offset.
                of_shape (advance t.address (to_size offset) t.dtype) r t.dtype t.device.device_type
                  t.layout)
              (get_elem?-map_pos (row_strides ds) k u f)
          ∙ ap
              (λ o. o >>= λ offset.
                of_shape (advance t.address (to_size offset) t.dtype) r t.dtype t.device.device_type
                  t.layout)
              (mul_int64-pos start u fits)
          ∙ of_shape-row_strides base r t.dtype t.device.device_type t.layout es has' small',
      refl,
      refl,
      refl,
    )

-- Advancing twice is advancing by the sum.
advance-advance :
    (a m n k : ℕ) (ty : DType) → m + n ≡ k → advance (advance a m ty) n ty ≡ advance a k ty
unfolding dtype_size
advance-advance a m n k ty e =
    let size = dtype_size ty in
    let split : k * size ≡ m * size + n * size = ap (λ (x : ℕ). x * size) (sym e) ∙ grind arith in
    wrapped (m * size) (n * size) (k * size) split
  where
    wrapped :
        (x y z : ℕ)
        → z ≡ x + y
        → add_size (add_size a (x % 2 ^ 64)) (y % 2 ^ 64) ≡ add_size a (z % 2 ^ 64)
    wrapped x y z e = omega arith

at-offset :
    (v : TensorView) (is : List ℤ) (o : ℕ)
    → offset is v ≡ some o
    → at is v ≡ some (advance v.data_ptr o v.dtype)
unfolding at
at-offset v is o e = ap (λ m. m >>= λ o. some (advance v.data_ptr o v.dtype)) e

pub at-slice :
    (t : Tensor) (w : TensorView) (is es : List ℕ) (m : ℕ)
    → w.data_ptr ≡ advance t.address m t.dtype
    → w.dtype ≡ t.dtype
    → w.strides ≡ map pos (row_strides es)
    → InRange is es
    → room es < 2 ^ 63
    → at (map pos is) w ≡ some (advance t.address (m + position is es) t.dtype)
at-slice t w is es m e f g range small =
    at-offset w (map pos is) (position is es) (offset-position w is es g range small)
    ∙ ap (λ a. some (advance a (position is es) w.dtype)) e
    ∙ ap (λ ty. some (advance (advance t.address m t.dtype) (position is es) ty)) f
    ∙ ap some (advance-advance t.address m (position is es) (m + position is es) t.dtype refl)

pub at-row_view :
    (t : Tensor) (is ds : List ℕ)
    → InRange is ds
    → room ds < 2 ^ 63
    → at (map pos is) (row_view t ds) ≡ some (advance t.address (position is ds) t.dtype)
at-row_view t is ds range small =
    at-offset (row_view t ds) (map pos is) (position is ds)
      (offset-position (row_view t ds) is ds refl range small)

room_le : (d e r : ℕ) → e ≤ d → max 1 e * r ≤ max 1 d * r
room_le d e r h = grind arith

-- slice(0, start, end) of a tensor, for start ≤ end ≤ its first extent, shows the elements from
-- start on: the address of indices in range in the slice is that of the same indices, with start
-- added to the first, in the view of the tensor. The extents have a product below 2^63, where an
-- extent of 0 counts as 1.
pub at-slice_first :
    (t : Tensor) (d start stop i : ℕ) (is ds : List ℕ)
    → HasDims t.shape (d ∷ ds)
    → room (d ∷ ds) < 2 ^ 63
    → start ≤ stop
    → stop ≤ d
    → InRange (i ∷ is) ((stop - start) ∷ ds)
    → (v w : TensorView) × (a : ℕ) × (view t ≡ some v)
      × (slice 0 (pos start) (pos stop) t ≡ some w)
      × (at (map pos (i ∷ is)) w ≡ some a)
      × (at (map pos ((start + i) ∷ is)) v ≡ some a)
at-slice_first t d start stop i is ds has small h k (l, range) =
    let bound = volume_le ds in
    let wide = room_le d (stop - start) (room ds) (omega arith) in
    let small' : room ((stop - start) ∷ ds) < 2 ^ 63 = omega arith in
    let place : start * volume ds + position (i ∷ is) ((stop - start) ∷ ds)
        ≡ position ((start + i) ∷ is) (d ∷ ds) =
      grind arith in
    let (w, made, data_ptr, dtype, ss) =
      slice-some t (d ∷ ds) ((stop - start) ∷ ds) 0 d (volume ds) start stop has small small' refl
        refl refl refl h (below stop d (room ds) k (room_pos ds) small)
        (fits start d (volume ds) (room ds) bound (omega arith) small) in
    (
      row_view t (d ∷ ds),
      w,
      advance t.address (position ((start + i) ∷ is) (d ∷ ds)) t.dtype,
      view-row_view t (d ∷ ds) has small,
      made,
      at-slice t w (i ∷ is) ((stop - start) ∷ ds) (start * volume ds) data_ptr dtype ss (l, range)
            small'
          ∙ ap (λ m. some (advance t.address m t.dtype)) place,
      at-row_view t ((start + i) ∷ is) (d ∷ ds) (omega arith, range) small,
    )
  where
    below : (stop d r : ℕ) → stop ≤ d → 1 ≤ r → max 1 d * r < 2 ^ 63 → stop < 2 ^ 63
    below stop d r h p k = grind arith

    fits : (start d v r : ℕ) → v ≤ r → start ≤ d → max 1 d * r < 2 ^ 63 → start * v < 2 ^ 63
    fits start d v r h k l = grind arith
