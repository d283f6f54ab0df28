-- ===== src/Math/Softmax.antt =====
-- src/math/softmax.cpp, built without `SCI_DEBUG`, so that no assertion is checked. An array is
-- read and written from the index `base` on. `none` is undefined behaviour.
pub mod Segment
pub mod RowLoop
pub mod Row
pub mod Rows
mod Tests
use scicompute.Base.{
  ℕ, zero, suc, ◌+◌, ◌-◌, ◌*◌, ◌/◌, ◌≡◌, Bool, true, false, ◌||◌, ◌&&◌, Option, some, none, List,
  [], ◌∷◌, get_elem?, map, if◌then◌else◌,
}
use scicompute.Base.Fallible.{◌>>=◌}
use scicompute.Base.Int.{ℤ, pos, negsuc, eqb_ℤ, add_int64, to_size, to_int, mul_int}
use scicompute.Core.Types.{float32}
use scicompute.Core.Status.{create_status, of_not_implemented}
use scicompute.Core.Expected.{Expected, of_value, of_unexpected}
use scicompute.Core.Shape.{dim, rounds}
use scicompute.Math.Float.{Float, max_of}
use scicompute.Math.Arrays.{FloatTensor, element_count, create, put, map_into}

module _ {ℓ} {W : Type ℓ} ⦃fl : Float W⦄ where
  -- The loop over the elements from i on, n of them, for their maximum.
  pub max_loop : (n i : ℕ) → (x : List W) → (base stride : ℕ) → W → Option W
  max_loop zero i x base stride max_val = some max_val
  max_loop (suc n) i x base stride max_val =
      get_elem? x (base + i * stride) >>= λ v. max_loop n (suc i) x base stride (max_of max_val v)

  -- The loop that writes the exponentials and sums them up.
  pub exp_loop :
      (n i : ℕ) → (x out : List W) → (base stride : ℕ) → (max_val sum : W) → Option (List W × W)
  unfolding put
  exp_loop zero i x out base stride max_val sum = some (out, sum)
  exp_loop (suc n) i x out base stride max_val sum = get_elem? x (base + i * stride) >>= λ v.
      put (base + i * stride) (fl.exponential (fl.sub v max_val)) out >>= λ r.
      get_elem? r (base + i * stride) >>= λ e.
      exp_loop n (suc i) x r base stride max_val (fl.add sum e)

  -- The loop that multiplies each element by a factor.
  pub scale_loop : (n i : ℕ) → List W → (base stride : ℕ) → W → Option (List W)
  unfolding put
  scale_loop zero i out base stride inv_sum = some out
  scale_loop (suc n) i out base stride inv_sum = get_elem? out (base + i * stride) >>= λ v.
      put (base + i * stride) (fl.mul v inv_sum) out >>= λ r.
      scale_loop n (suc i) r base stride inv_sum

  pub softmax_f32 : (n base stride : ℕ) → (x out : List W) → Option (List W)
  unfolding max_loop exp_loop scale_loop
  softmax_f32 n base stride x out = get_elem? x base >>= λ first.
      max_loop (n - 1) 1 x base stride first >>= λ max_val.
      exp_loop n 0 x out base stride max_val fl.nought >>= λ (written, sum).
      scale_loop n 0 written base stride (fl.div fl.one sum)

  -- The loop that sums the exponentials.
  pub sum_exp_loop : (n i : ℕ) → List W → (base stride : ℕ) → (max_val sum : W) → Option W
  sum_exp_loop zero i x base stride max_val sum = some sum
  sum_exp_loop (suc n) i x base stride max_val sum = get_elem? x (base + i * stride) >>= λ v.
      sum_exp_loop n (suc i) x base stride max_val (fl.add sum (fl.exponential (fl.sub v max_val)))

  pub shift_loop : (n i : ℕ) → (x out : List W) → (base stride : ℕ) → W → Option (List W)
  unfolding put
  shift_loop zero i x out base stride log_sum = some out
  shift_loop (suc n) i x out base stride log_sum = get_elem? x (base + i * stride) >>= λ v.
      put (base + i * stride) (fl.sub v log_sum) out >>= λ r.
      shift_loop n (suc i) x r base stride log_sum

  pub log_softmax_f32 : (n base stride : ℕ) → (x out : List W) → Option (List W)
  unfolding max_loop sum_exp_loop shift_loop
  log_softmax_f32 n base stride x out = get_elem? x base >>= λ first.
      max_loop (n - 1) 1 x base stride first >>= λ max_val.
      sum_exp_loop n 0 x base stride max_val fl.nought >>= λ sum.
      shift_loop n 0 x out base stride (fl.add (fl.logarithm sum) max_val)

  -- `for (int r = 0; r < rows; ++r) kernel(in + r * cols, out + r * cols, cols, 1)`, n rows to go.
  unfoldable pub row_loop :
      ((n base stride : ℕ) → (x out : List W) → Option (List W))
      → (n r : ℕ) → (cols : ℤ) → (x out : List W) → Option (List W)
  row_loop kernel zero r cols x out = some out
  row_loop kernel (suc n) r cols x out = mul_int (pos r) cols >>= λ base.
      kernel (to_size cols) (to_size base) 1 x out >>= row_loop kernel n (suc r) cols x

  softmax_axis_f32 : (shape : List ℤ) → (ndim axis : ℤ) → (x out : List W) → Option (List W)
  unfolding row_loop softmax_f32
  softmax_axis_f32 shape ndim axis x out =
      let rows =
        (get_elem? shape 0 >>= λ d.
        get_elem? shape 1 >>= λ e. row_loop softmax_f32 (rounds d) 0 e x out) in
      if eqb_ℤ ndim (pos 2) && eqb_ℤ axis (pos 1) then rows else some out

  -- The choice of the rows, where the last axis was asked for.
  pub by_rows :
      ((n base stride : ℕ) → (x out : List W) → Option (List W))
      → (a : FloatTensor W) → List W
      → Option (List W)
  unfolding row_loop
  by_rows kernel a out =
      let rows =
        (dim 0 a.shape >>= λ d.
        dim 1 a.shape >>= λ e. row_loop kernel (rounds (to_int d)) 0 (to_int e) a.floats out) in
      let flat = (element_count a >>= λ n. kernel n 0 1 a.floats out) in
      if eqb_ℤ a.shape.ndims (pos 2) then rows else flat

  abbrev pub last_axis : ℤ → FloatTensor W → Option Bool
  last_axis axis a =
      add_int64 a.shape.ndims (negsuc 0) >>= λ last. some (eqb_ℤ axis (negsuc 0) || eqb_ℤ axis last)

  -- The loop of `hardmax` over a row from the column c on, with n columns to go.
  pub max_idx_loop : (n c : ℕ) → List W → (base max_idx : ℕ) → W → Option ℕ
  max_idx_loop zero c x base max_idx max_val = some max_idx
  max_idx_loop (suc n) c x base max_idx max_val = get_elem? x (base + c) >>= λ v.
      max_idx_loop n (suc c) x base (if fl.lt max_val v then c else max_idx)
        (if fl.lt max_val v then v else max_val)

  pub hardmax_row : (n base stride : ℕ) → (x out : List W) → Option (List W)
  unfolding max_idx_loop put
  hardmax_row n base stride x out = get_elem? x base >>= λ first.
      max_idx_loop (n - 1) 1 x base 0 first >>= λ max_idx. put (base + max_idx) fl.one out

  module _ (fresh : ℕ → List W) where
    pub softmax : ℤ → FloatTensor W → Option (Expected (FloatTensor W))
    unfolding by_rows softmax_f32 create
    softmax axis a = create fresh a.shape a.dtype >>= λ out. last_axis axis a >>= λ last.
        let computed =
          (by_rows softmax_f32 a out.floats >>= λ r. some (of_value (record out { floats = r }))) in
        let refused : Expected (FloatTensor W) =
          of_unexpected
            (create_status of_not_implemented (some "Only last-axis softmax supported")) in
        if last then computed else some refused

    pub log_softmax : ℤ → FloatTensor W → Option (Expected (FloatTensor W))
    unfolding by_rows log_softmax_f32 create
    log_softmax axis a = create fresh a.shape a.dtype >>= λ out. last_axis axis a >>= λ last.
        let computed =
          (by_rows log_softmax_f32 a out.floats >>= λ r.
          some (of_value (record out { floats = r }))) in
        let refused : Expected (FloatTensor W) =
          of_unexpected
            (create_status of_not_implemented (some "Only last-axis log_softmax supported")) in
        if last then computed else some refused

    pub softmax_with_temperature : W → ℤ → FloatTensor W → Option (Expected (FloatTensor W))
    unfolding softmax create map_into
    softmax_with_temperature temperature axis a = create fresh a.shape a.dtype >>= λ scaled.
        element_count a >>= λ n.
        map_into (λ x. fl.mul x (fl.div fl.one temperature)) n 0 a.floats scaled.floats >>= λ r.
        softmax axis (record scaled { floats = r })

    softmax_stable : ℤ → FloatTensor W → Option (Expected (FloatTensor W))
    unfolding softmax
    softmax_stable = softmax

    pub hardmax : ℤ → FloatTensor W → Option (Expected (FloatTensor W))
    unfolding row_loop hardmax_row create
    hardmax axis a = create fresh a.shape float32 >>= λ out. last_axis axis a >>= λ last.
        let zeroed = map (λ x. fl.nought) out.floats in
        let rows =
          (dim 0 a.shape >>= λ d. dim 1 a.shape >>= λ e.
          row_loop hardmax_row (rounds (to_int d)) 0 (to_int e) a.floats zeroed) in
        let written = if eqb_ℤ a.shape.ndims (pos 2) then rows else some zeroed in
        (if last then written else some zeroed) >>= λ r. some (of_value (record out { floats = r }))
