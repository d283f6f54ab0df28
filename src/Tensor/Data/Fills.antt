-- ===== src/Tensor/Data/Fills.antt =====
-- `fill` writes the value to every element: doubling what is filled gives what a loop would give.
use mathlib.Core.List.{append-nil}
use scicompute.Base.{
  Bool-cases, ==_ne, ℕ, zero, suc, ◌+◌, ◌-◌, ◌*◌, ◌≤◌, ◌<◌, ◌≡◌, ◌⊎◌, inl, inr, sym, ap, ◌∙◌, false,
  Option, some, none, List, ◌++◌, min, length, take, drop, arith, if_true, if_false, if◌then◌else◌,
  leb, ◌==◌, lt→ltb, le→leb, not_lt→ltb, dec_lt,
}
use scicompute.Base.Int.{pos, to_size}
use scicompute.Base.Fallible.{◌>>=◌}
use scicompute.Core.Types.{dtype_size, cuda}
use scicompute.Core.Shape.{num_elements}
use scicompute.Tensor.{Tensor}
use scicompute.Tensor.Data.Memory.{read_at, write_at, same_type, same_type_eq}
use scicompute.Tensor.Data.Repeats.{
  copies, length-drop, no_bytes, read-copies, write-copies, length-take, write-first,
}
use scicompute.Tensor.Data.{broadcast, fill_bytes, fill_host, fill}

broadcast-end :
    (fuel step n size : ℕ) (bytes : List ℕ)
    → n ≤ step
    → broadcast fuel step n size bytes ≡ some bytes
unfolding broadcast
broadcast-end zero step n size bytes h = if_false _ _ (not_lt→ltb step n (λ l. omega (arith, l)))
broadcast-end (suc fuel) step n size bytes h =
    if_false _ _ (not_lt→ltb step n (λ l. omega (arith, l)))

-- One round doubles what is filled, up to the end.
broadcast-suc :
    (fuel step n : ℕ) (v rest : List ℕ)
    → step < n
    → length rest ≡ (n - step) * length v
    → broadcast (suc fuel) step n (length v) (copies step v ++ rest)
      ≡ broadcast fuel
          (step * 2)
          n
          (length v)
          (copies (step + min step (n - step)) v ++ drop (min step (n - step) * length v) rest)
unfolding broadcast
broadcast-suc fuel step n v rest l long =
    let c = min step (n - step) in
    let fits : c * length v ≤ length rest =
      omega (arith, scaled c (n - step) (length v) (omega arith)) in
    if_true _ _ (lt→ltb step n l)
    ∙ ap
        (λ o. o >>= λ ys.
          write_at (step * length v) ys (copies step v ++ rest)
          >>= broadcast fuel (step * 2) n (length v))
        (read-copies c step v rest (omega arith))
    ∙ ap (λ o. o >>= broadcast fuel (step * 2) n (length v)) (write-copies step c v rest fits)
  where
    scaled : (a b s : ℕ) → a ≤ b → a * s ≤ b * s
    scaled a b s h = grind arith

filled_up :
    (n : ℕ) (v rest : List ℕ) → length rest ≡ 0 → some (copies n v ++ rest) ≡ some (copies n v)
filled_up n v rest e =
    ap (λ l. some (copies n v ++ l)) (no_bytes rest e) ∙ ap some (append-nil (copies n v))

left_over : (n step s : ℕ) → n ≤ step → (n - step) * s ≡ 0
left_over n step s h = ap (λ (k : ℕ). k * s) {x = n - step} {y = 0} (omega arith) ∙ zero_times s
  where
    zero_times : (s : ℕ) → 0 * s ≡ 0
    zero_times s = omega arith

broadcast-copies :
    (fuel step n : ℕ) (v rest : List ℕ)
    → 1 ≤ step
    → step ≤ n
    → n ≤ step + fuel
    → length rest ≡ (n - step) * length v
    → broadcast fuel step n (length v) (copies step v ++ rest) ≡ some (copies n v)
broadcast-copies zero step n v rest one h k long =
    broadcast-end zero step n (length v) (copies step v ++ rest) (omega arith)
    ∙ ap (λ m. some (copies m v ++ rest)) {x = step} {y = n} (omega arith)
    ∙ filled_up n v rest (omega (arith, long, left_over n step (length v) (omega arith)))
broadcast-copies (suc fuel) step n v rest one h k long = elim (dec_lt step n) [
  | no l ↦
      broadcast-end (suc fuel) step n (length v) (copies step v ++ rest) (omega arith)
      ∙ ap (λ m. some (copies m v ++ rest)) {x = step} {y = n} (omega arith)
      ∙ filled_up n v rest (omega (arith, long, left_over n step (length v) (omega arith)))
  | yes l ↦
      let c = min step (n - step) in
      let left = drop (c * length v) rest in
      let shorter : length left ≡ (n - step - c) * length v =
        length-drop (c * length v) rest
        ∙ ap (λ (k : ℕ). k - c * length v) long
        ∙ parted (n - step) c (length v) (omega arith) in
      broadcast-suc fuel step n v rest l long ∙ elim (dec_lt n (step * 2)) [
        | yes e ↦
            broadcast-end fuel (step * 2) n (length v) (copies (step + c) v ++ left) (omega arith)
            ∙ ap (λ m. some (copies m v ++ left)) {x = step + c} {y = n} (omega arith)
            ∙ filled_up n v left (
                shorter
                ∙ ap (λ (k : ℕ). k * length v) {x = n - step - c} {y = n - (step + c)} (omega arith)
                ∙ left_over n (step + c) (length v) (omega arith))
        | no e ↦
            ap (λ m. broadcast fuel (step * 2) n (length v) (copies m v ++ left)) {x = step + c}
              {y = step * 2} (omega arith)
            ∙ broadcast-copies fuel (step * 2) n v left (omega arith) (omega arith) (omega arith) (
                shorter
                ∙ ap (λ (k : ℕ). k * length v) {x = n - step - c} {y = n - step * 2} (omega arith))
      ]
]
  where
    parted : (a c s : ℕ) → c ≤ a → a * s - c * s ≡ (a - c) * s
    parted a c s h = let split : a * s ≡ (a - c) * s + c * s = grind arith in omega (arith, split)

fill_bytes-copies :
    (n : ℕ) (v value bytes : List ℕ)
    → length v ≤ length value
    → take (length v) value ≡ v
    → length bytes ≡ n * length v
    → fill_bytes n (length v) value bytes ≡ some (copies n v)
unfolding fill_bytes read_at
fill_bytes-copies zero v value bytes h f e = ap some (no_bytes bytes (omega (arith, e)))
fill_bytes-copies (suc n) v value bytes h f e =
    let all : suc n * length v ≡ length v + n * length v = grind arith in
    let rest = drop (length v) bytes in
    let start : v ++ rest ≡ copies 1 v ++ rest = ap (λ l. l ++ rest) (sym (append-nil v)) in
    if_false {b = suc n == 0} _ _ (ground arith)
    ∙ ap (λ o. (o >>= λ ys. write_at 0 ys bytes) >>= broadcast (suc n) 1 (suc n) (length v))
        (if_true _ _ (le→leb (0 + length v) (length value) (omega arith)) ∙ ap some f)
    ∙ ap (λ o. o >>= broadcast (suc n) 1 (suc n) (length v))
        (write-first v bytes (omega (arith, all)))
    ∙ ap (broadcast (suc n) 1 (suc n) (length v)) start
    ∙ broadcast-copies (suc n) 1 (suc n) v rest (omega arith) (omega arith) (omega arith) (
        length-drop (length v) bytes
        ∙ ap (λ (k : ℕ). k - length v) e
        ∙ omega (arith, all)
        ∙ ap (λ (k : ℕ). k * length v) {x = n} (omega arith))

fill_host-cases :
    (n : ℕ) (value : List ℕ) (t : Tensor)
    → length t.bytes ≡ n * dtype_size t.dtype
    → 1 ≤ n
    → ((dtype_size t.dtype ≤ length value)
        × (fill_host n (dtype_size t.dtype) value t
            ≡ some (record t { bytes = copies n (take (dtype_size t.dtype) value) })))
      ⊎ ((length value < dtype_size t.dtype) × (fill_host n (dtype_size t.dtype) value t ≡ none))
unfolding fill_host fill_bytes read_at
fill_host-cases n value t long one =
    let size = dtype_size t.dtype in
    let store : List ℕ → Option Tensor = λ bs. some (record t { bytes = bs }) in
    elim (dec_lt (length value) size) [
      | yes h ↦
          let past : (if leb (0 + size) (length value) then some (take size value) else none)
              ≡ none =
            if_false _ _ (lt→leb (length value) (0 + size) (omega arith)) in
          inr (
            h,
            ap (λ o. o >>= store)
                (if_false {b = n == 0} _ _ (ground arith)
                  ∙ ap (λ o. (o >>= λ ys. write_at 0 ys t.bytes) >>= broadcast n 1 n size) past),
          )
      | no h ↦
          let v = take size value in
          let own : length v ≡ size = length-take size value (omega (arith, h)) in
          inl (
            omega (arith, h),
            ap (λ (s : ℕ). fill_bytes n s value t.bytes >>= store) (sym own)
                ∙ ap (λ o. o >>= store)
                    (fill_bytes-copies n v value t.bytes (omega (arith, own, h))
                      (ap (λ (s : ℕ). take s value) own) (long ∙ ap (λ (s : ℕ). n * s) (sym own))),
          )
    ]
  where
    lt→leb : (a b : ℕ) → a < b → leb b a ≡ false
    lt→leb a b h = ground arith

-- fill of a tensor with n elements, at least one, and a block of just these, on a device that is not
-- a CUDA device: either the value has at least the bytes of an element, and the block becomes n
-- copies of the first of them, or it has fewer, and the code reads past its end. On a CUDA device
-- the code writes through the address of the device.
pub fill_lem :
    (value : List ℕ) (t : Tensor) (n : ℕ)
    → num_elements t.shape ≡ some (pos n)
    → length t.bytes ≡ n * dtype_size t.dtype
    → 1 ≤ n
    → ((same_type t.device.device_type cuda ≡ false)
        × (((dtype_size t.dtype ≤ length value)
              × (fill value t
                  ≡ some (record t { bytes = copies n (take (dtype_size t.dtype) value) })))
            ⊎ ((length value < dtype_size t.dtype) × (fill value t ≡ none))))
      ⊎ ((t.device.device_type ≡ cuda) × (fill value t ≡ none))
unfolding fill
fill_lem value t n e long one = elim (Bool-cases (same_type t.device.device_type cuda)) [
  | inl c ↦ inr (same_type_eq t.device.device_type cuda c, start ∙ if_true _ _ c)
  | inr c ↦ inl (
    c,
    elim (fill_host-cases n value t long one) [
      | inl (h, f) ↦ inl (h, start ∙ if_false _ _ c ∙ f)
      | inr (h, f) ↦ inr (h, start ∙ if_false _ _ c ∙ f)
    ],
  )
]
  where
    filled : Option Tensor
    filled =
        if same_type t.device.device_type cuda
        then none
        else fill_host n (dtype_size t.dtype) value t

    start : fill value t ≡ filled
    start =
        ap
          (λ o. o >>= λ k.
            if to_size k == 0
            then some t
            else if same_type t.device.device_type cuda
            then none
            else fill_host (to_size k) (dtype_size t.dtype) value t)
          e
        ∙ if_false {b = n == 0} _ _ (==_ne n 0 (omega (arith, one)))
