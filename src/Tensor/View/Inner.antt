-- ===== src/Tensor/View/Inner.antt =====
-- `slice` along the second of two dimensions, which shows other elements than those asked for.
use scicompute.Base.{
  ℕ, ◌+◌, ◌-◌, ◌*◌, ◌%◌, ◌^◌, ◌≤◌, ◌<◌, ◌≡◌, ◌≢◌, refl, some, [], ◌∷◌, map, max, arith, add_size,
}
use scicompute.Base.Int.{pos}
use scicompute.Core.Types.{DType, dtype_size}
use scicompute.Core.Shape.Rows.{room, volume_le, room_pos, HasDims}
use scicompute.Tensor.{Tensor}
use scicompute.Tensor.View.{TensorView, view, slice, at, advance}
use scicompute.Tensor.View.Offsets.{InRange, position, position_lt}
use scicompute.Tensor.View.Index.{row_view, view-row_view}
use scicompute.Tensor.View.Slices.{slice-some, at-slice, at-row_view}

sized : (ty : DType) → (1 ≤ dtype_size ty) × (dtype_size ty ≤ 8)
unfolding dtype_size
sized ty = ground arith

advance_ne : (a x y : ℕ) (ty : DType) → x < y → y * 8 < 2 ^ 64 → advance a x ty ≢ advance a y ty
advance_ne a x y ty h small e =
    let (least, most) = sized ty in
    let grown = below x y (dtype_size ty) h least in
    let fits = inside y (dtype_size ty) most in
    apart (x * dtype_size ty) (y * dtype_size ty) grown (omega (arith, fits)) e
  where
    below : (x y s : ℕ) → x < y → 1 ≤ s → x * s < y * s
    below x y s h k = grind arith

    inside : (y s : ℕ) → s ≤ 8 → y * s ≤ y * 8
    inside y s h = grind arith

    apart : (m n : ℕ) → m < n → n < 2 ^ 64 → add_size a (m % 2 ^ 64) ≢ add_size a (n % 2 ^ 64)
    apart m n h k e = omega arith

-- slice(1, start, end) of an r by c tensor shows wrong elements, for start ≤ end ≤ c, a range
-- shorter than c and 8·r·c below 2^63, an extent of 0 counting as 1: from the second row on, no
-- element (i, j) of the slice has the address of the element (i, start + j) of the tensor.
pub at-slice_second :
    (t : Tensor) (r c start stop i j : ℕ)
    → HasDims t.shape (r ∷ c ∷ [])
    → room (r ∷ c ∷ []) * 8 < 2 ^ 63
    → start ≤ stop
    → stop ≤ c
    → stop - start < c
    → InRange (i ∷ j ∷ []) (r ∷ (stop - start) ∷ [])
    → 1 ≤ i
    → (v w : TensorView) × (a b : ℕ) × (view t ≡ some v)
      × (slice 1 (pos start) (pos stop) t ≡ some w)
      × (at (map pos (i ∷ j ∷ [])) w ≡ some a)
      × (at (map pos (i ∷ (start + j) ∷ [])) v ≡ some b)
      × (a ≢ b)
at-slice_second t r c start stop i j has small h k less (l, (m, n)) first =
    let ds = r ∷ c ∷ [] in
    let es = r ∷ (stop - start) ∷ [] in
    let least = room_pos (r ∷ []) in
    let fitting : room ds < 2 ^ 63 = omega arith in
    let narrower : room es ≤ room ds = narrow (max 1 r) (stop - start) c (omega arith) in
    let broad : c ≤ room ds = wide (max 1 r) c (omega arith) in
    let (w, made, data_ptr, dtype, ss) =
      slice-some t ds es 1 c 1 start stop has fitting (omega arith) refl refl refl refl h
        (omega arith) (omega arith) in
    let bound = volume_le ds in
    let range : InRange (i ∷ (start + j) ∷ []) ds = (l, (omega arith, n)) in
    let last = position_lt (i ∷ (start + j) ∷ []) ds range in
    let moved : start * 1 + position (i ∷ j ∷ []) es < position (i ∷ (start + j) ∷ []) ds =
      shift i (stop - start) c first less in
    (
      row_view t ds,
      w,
      advance t.address (start * 1 + position (i ∷ j ∷ []) es) t.dtype,
      advance t.address (position (i ∷ (start + j) ∷ []) ds) t.dtype,
      view-row_view t ds has fitting,
      made,
      at-slice t w (i ∷ j ∷ []) es (start * 1) data_ptr dtype ss (l, (m, n)) (omega arith),
      at-row_view t (i ∷ (start + j) ∷ []) ds range fitting,
      advance_ne t.address (start * 1 + position (i ∷ j ∷ []) es)
          (position (i ∷ (start + j) ∷ []) ds) t.dtype moved (omega arith),
    )
  where
    narrow : (q a b : ℕ) → a ≤ b → q * (max 1 a * 1) ≤ q * (max 1 b * 1)
    narrow q a b h = grind arith

    wide : (q b : ℕ) → 1 ≤ q → b ≤ q * (max 1 b * 1)
    wide q b h = grind arith

    shift :
        (i a c : ℕ)
        → 1 ≤ i
        → a < c
        → start * 1 + (i * (a * 1) + (j * 1 + 0)) < i * (c * 1) + ((start + j) * 1 + 0)
    shift i a c h k = grind arith
