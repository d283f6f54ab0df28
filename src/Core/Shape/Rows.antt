-- ===== src/Core/Shape/Rows.antt =====
-- The row-major order: the number of the elements and the strides of a `TensorShape`.
use scicompute.Base.{
  ℕ, zero, suc, ◌+◌, ◌-◌, ◌*◌, ◌^◌, ◌≤◌, ◌<◌, ◌≡◌, refl, sym, ap, subst, ◌∙◌, some, List, [], ◌∷◌,
  map, max, if◌then◌else◌, if_false, length, get_elem?, set, drop, replicate, length-set,
  length-replicate, length-map, get_elem?-set_self, get_elem?-set_ne, get_elem?-some, ℕ_discrete,
  some_inj, arith, ◌==◌,
}
use scicompute.Base.Int.{ℤ, pos, mul_int64, mul_int64-pos, eqb_ℤ}
use scicompute.Base.Fallible.{◌>>=◌}
use scicompute.Core.Shape.{
  TensorShape, product_from, rounds, num_elements, fill_strides, strides, strides_of_rank,
}

-- The product of the dimensions, and the same with empty dimensions counted as one.
abbrev pub volume : List ℕ → ℕ
volume [] = 1
volume (d ∷ ds) = d * volume ds

abbrev pub room : List ℕ → ℕ
room [] = 1
room (d ∷ ds) = max 1 d * room ds

-- Each stride is the product of the dimensions after it.
abbrev pub row_strides : List ℕ → List ℕ
row_strides [] = []
row_strides (d ∷ ds) = volume ds ∷ row_strides ds

-- The shape has these dimensions.
abbrev pub HasDims : TensorShape → List ℕ → Type 0
HasDims s ds =
    (s.ndims ≡ pos (length ds))
    × ((k d : ℕ) → get_elem? ds k ≡ some d → get_elem? s.dims k ≡ some (pos d))

pub room_pos : (ds : List ℕ) → 1 ≤ room ds
room_pos [] = omega arith
room_pos (d ∷ ds) = let ih = room_pos ds in grind arith

pub volume_le : (ds : List ℕ) → volume ds ≤ room ds
volume_le [] = omega arith
volume_le (d ∷ ds) = let ih = volume_le ds in scaled d (volume ds) (room ds) ih
  where
    scaled : (d v r : ℕ) → v ≤ r → d * v ≤ max 1 d * r
    scaled d v r h = grind arith

-- A part of a product that fits fits.
part_fits : (a d r : ℕ) → 1 ≤ r → a * (max 1 d * r) < 2 ^ 63 → a * d < 2 ^ 63
part_fits a d r h k = grind arith

rest_fits : (a d r : ℕ) → a * (max 1 d * r) < 2 ^ 63 → a * d * r < 2 ^ 63
rest_fits a d r k = grind arith

product_from-volume :
    (dims : List ℤ) (i : ℕ) (ds : List ℕ) (acc : ℕ)
    → ((k d : ℕ) → get_elem? ds k ≡ some d → get_elem? dims (i + k) ≡ some (pos d))
    → acc * room ds < 2 ^ 63
    → product_from dims i (length ds) (pos acc) ≡ some (pos (acc * volume ds))
unfolding product_from
product_from-volume dims i [] acc h small = ap (λ n. some (pos n)) {x = acc} (omega arith)
product_from-volume dims i (d ∷ ds) acc h small =
    let here : get_elem? dims i ≡ some (pos d) =
      ap (get_elem? dims) {x = i} (omega arith) ∙ h 0 d refl in
    let fits = part_fits acc d (room ds) (room_pos ds) small in
    let left : acc * d * room ds < 2 ^ 63 = rest_fits acc d (room ds) small in
    ap (λ o. o >>= λ e. mul_int64 (pos acc) e >>= product_from dims (suc i) (length ds)) here
    ∙ ap (λ o. o >>= product_from dims (suc i) (length ds)) (mul_int64-pos acc d fits)
    ∙ product_from-volume dims (suc i) ds (acc * d)
        (λ k e g. ap (get_elem? dims) {x = suc i + k} (omega arith) ∙ h (suc k) e g) left
    ∙ ap (λ n. some (pos n)) {x = acc * d * volume ds} (grind arith)

-- `num_elements` of a shape that fits: nothing for no dimensions, and otherwise their product.
pub num_elements-volume :
    (s : TensorShape) (d : ℕ) (ds : List ℕ)
    → HasDims s (d ∷ ds)
    → room (d ∷ ds) < 2 ^ 63
    → num_elements s ≡ some (pos (volume (d ∷ ds)))
unfolding num_elements
num_elements-volume s d ds (n, h) small =
    ap (λ n. if eqb_ℤ n (pos 0) then some (pos 0) else product_from s.dims 0 (rounds n) (pos 1)) n
    ∙ if_false {b = suc (length ds) == 0} _ _ (ground arith)
    ∙ product_from-volume s.dims 0 (d ∷ ds) 1
        (λ k e g. ap (get_elem? s.dims) {x = 0 + k} (omega arith) ∙ h k e g) (omega arith)
    ∙ ap (λ n. some (pos n)) {x = 1 * volume (d ∷ ds)} (omega arith)

pub volume-drop :
    (ds : List ℕ) (i d : ℕ)
    → get_elem? ds i ≡ some d
    → volume (drop i ds) ≡ d * volume (drop (suc i) ds)
volume-drop [] i d e = cc
volume-drop (x ∷ xs) zero d e = ap (λ k. k * volume xs) (some_inj e)
volume-drop (x ∷ xs) (suc i) d e = volume-drop xs i d e

pub room-drop_le : (ds : List ℕ) (i : ℕ) → room (drop i ds) ≤ room ds
room-drop_le ds zero = omega arith
room-drop_le [] (suc i) = omega arith
room-drop_le (x ∷ xs) (suc i) =
    let ih = room-drop_le xs i in longer x (room (drop i xs)) (room xs) ih
  where
    longer : (x a b : ℕ) → a ≤ b → a ≤ max 1 x * b
    longer x a b h = grind arith

pub row_strides-volume :
    (ds : List ℕ) (j : ℕ)
    → j < length ds
    → get_elem? (row_strides ds) j ≡ some (volume (drop (suc j) ds))
row_strides-volume [] j h = elim h [ ]
row_strides-volume (d ∷ ds) zero h = refl
row_strides-volume (d ∷ ds) (suc j) h = row_strides-volume ds j (omega arith)

pub length-row_strides : (ds : List ℕ) → length (row_strides ds) ≡ length ds
length-row_strides [] = refl
length-row_strides (d ∷ ds) = ap suc (length-row_strides ds)

pub get_elem?-map_pos :
    (xs : List ℕ) (j x : ℕ) → get_elem? xs j ≡ some x → get_elem? (map pos xs) j ≡ some (pos x)
get_elem?-map_pos [] j x e = cc
get_elem?-map_pos (y ∷ ys) zero x e = ap (λ k. some (pos k)) (some_inj e)
get_elem?-map_pos (y ∷ ys) (suc j) x e = get_elem?-map_pos ys j x e

pub list_ext :
    (xs ys : List ℤ)
    → length xs ≡ length ys
    → ((j : ℕ) → j < length xs → get_elem? xs j ≡ get_elem? ys j)
    → xs ≡ ys
list_ext [] [] e h = refl
list_ext [] (y ∷ ys) e h = let bad : 1 ≤ 0 = omega arith in elim bad [ ]
list_ext (x ∷ xs) [] e h = let bad : 1 ≤ 0 = omega arith in elim bad [ ]
list_ext (x ∷ xs) (y ∷ ys) e h =
    ap (λ z. z ∷ xs) (some_inj (h 0 (omega arith)))
    ∙ ap (λ zs. y ∷ zs) (list_ext xs ys (omega arith) (λ j l. h (suc j) (omega arith)))

get_elem?-replicate : (n j : ℕ) (z : ℤ) → j < n → get_elem? (replicate n z) j ≡ some z
get_elem?-replicate zero j z h = elim h [ ]
get_elem?-replicate (suc n) zero z h = refl
get_elem?-replicate (suc n) (suc j) z h = get_elem?-replicate n j z (omega arith)

module _ (dims : List ℤ) (ds : List ℕ)
    (reads : (k d : ℕ) → get_elem? ds k ≡ some d → get_elem? dims k ≡ some (pos d))
    (small : room ds < 2 ^ 63) where
  -- The strides from i on are right.
  Done : ℕ → List ℤ → Type 0
  Done i s = (j : ℕ) → i ≤ j → j < length ds → get_elem? s j ≡ some (pos (volume (drop (suc j) ds)))

  part : ℕ → ℕ
  part j = volume (drop (suc j) ds)

  fill_strides-step :
      (i : ℕ) (s : List ℤ)
      → suc i < length ds
      → get_elem? s (suc i) ≡ some (pos (part (suc i)))
      → fill_strides dims (suc i) s ≡ fill_strides dims i (set s i (pos (part i)))
  unfolding fill_strides part
  fill_strides-step i s l e =
      let (d, g) = get_elem?-some ds (suc i) l in
      let bound = volume_le (drop (suc i) ds) in
      let shorter = room-drop_le ds (suc i) in
      let valued : part (suc i) * d ≡ part i =
        swapped (part (suc i)) d ∙ sym (volume-drop ds (suc i) d g) in
      ap
        (λ o. o >>= λ next.
          get_elem? dims (suc i) >>= λ k. mul_int64 next k >>= λ v. fill_strides dims i (set s i v))
        e
      ∙ ap
          (λ o.
            o >>= λ k. mul_int64 (pos (part (suc i))) k >>= λ v. fill_strides dims i (set s i v))
          (reads (suc i) d g)
      ∙ ap (λ o. o >>= λ v. fill_strides dims i (set s i v))
          (mul_int64-pos (part (suc i)) d (omega (arith, valued)))
      ∙ ap (λ w. fill_strides dims i (set s i (pos w))) valued
    where
      swapped : (a b : ℕ) → a * b ≡ b * a
      swapped a b = grind arith

  fill_strides-Done :
      (i : ℕ) (s : List ℤ)
      → i < length ds
      → length s ≡ length ds
      → Done i s
      → (t : List ℤ) × (fill_strides dims i s ≡ some t) × (length t ≡ length ds) × Done 0 t
  unfolding fill_strides Done part
  fill_strides-Done zero s l e done = (s, refl, e, done)
  fill_strides-Done (suc i) s l e done =
      let (t, f, m, all) =
        fill_strides-Done i (set s i (pos (part i))) (omega arith)
          (length-set s i (pos (part i)) ∙ e)
          (λ j h k. elim (ℕ_discrete i j) [
            | yes same ↦
                subst (λ (n : ℕ). get_elem? (set s i (pos (part i))) n ≡ some (pos (part n))) same
                  (get_elem?-set_self s i (pos (part i)) (omega arith))
            | no other ↦ get_elem?-set_ne s i j (pos (part i)) other ∙ done j (omega arith) k
          ]) in
      (t, fill_strides-step i s l (done (suc i) (omega arith) l) ∙ f, m, all)

pub volume-drop_all : (ds : List ℕ) → volume (drop (length ds) ds) ≡ 1
volume-drop_all [] = refl
volume-drop_all (d ∷ ds) = volume-drop_all ds

last_stride :
    (d : ℕ) (ds : List ℕ) (j : ℕ)
    → length ds ≤ j
    → j < suc (length ds)
    → get_elem? (replicate (suc (length ds)) (pos 1)) j ≡ some (pos (volume (drop j ds)))
last_stride d ds j l k =
    get_elem?-replicate (suc (length ds)) j (pos 1) k
    ∙ ap (λ n. some (pos n)) (sym (volume-drop_all ds))
    ∙ ap (λ i. some (pos (volume (drop i ds)))) {x = length ds} (omega arith)

-- `strides` of a shape that fits: each stride is the product of the dimensions after it.
pub strides-row_strides :
    (s : TensorShape) (ds : List ℕ)
    → HasDims s ds
    → room ds < 2 ^ 63
    → strides s ≡ some (map pos (row_strides ds))
unfolding strides fill_strides Done part
strides-row_strides s [] (n, h) small = ap (strides_of_rank s.dims) n
strides-row_strides s (d ∷ ds) (n, h) small =
    let ones = replicate (suc (length ds)) (pos 1) in
    let same : length ones ≡ suc (length ds) = length-replicate (suc (length ds)) (pos 1) in
    let (t, f, m, all) =
      fill_strides-Done s.dims (d ∷ ds) h small (length ds) ones (omega arith) same
        (λ j l (k : j < suc (length ds)). last_stride d ds j l k) in
    ap (strides_of_rank s.dims) n
    ∙ ap (λ i. fill_strides s.dims i ones) {x = suc (length ds) - 1} (omega arith)
    ∙ f
    ∙ ap some (
        list_ext t (map pos (row_strides (d ∷ ds)))
          (m ∙ sym (length-map pos (row_strides (d ∷ ds)) ∙ length-row_strides (d ∷ ds)))
          (λ j l.
            all j (omega arith) (omega arith)
            ∙ sym (
                get_elem?-map_pos (row_strides (d ∷ ds)) j (volume (drop (suc j) (d ∷ ds)))
                  (row_strides-volume (d ∷ ds) j (omega arith)))))
