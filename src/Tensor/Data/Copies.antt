-- ===== src/Tensor/Data/Copies.antt =====
-- Copies of tensors between devices.
use scicompute.Base.{
  sym, ℕ, ◌≡◌, ◌≢◌, inl, inr, refl, ap, subst, ◌∙◌, true, false, some, length, replicate, arith,
  if_true, if_false, if◌then◌else◌, Bool-cases, length-replicate,
}
use scicompute.Base.Fallible.{◌>>=◌}
use scicompute.Core.Types.{DType, cpu, contiguous}
use scicompute.Core.Status.{create_status, of_not_implemented}
use scicompute.Core.Expected.{of_value, of_unexpected}
use scicompute.Tensor.{Tensor, Device}
use scicompute.Tensor.Data.Memory.{DeviceOps, Space, space_of, same_type}
use scicompute.Tensor.Data.{
  byte_size, same_device, block_of, create, copy_across_devices, copy_from, clone, to, to_dtype,
  same_dtype,
}
use scicompute.Tensor.Data.Spaces.{Copying, same_device-space, host_space}

-- The devices give blocks of the length asked for. `copy_to_device` copies from the host to the
-- memory of the device, `copy_to_host` from there to the host, and `copy_within` inside the memory of
-- the device; of other blocks nothing is known.
pub record Reliable (ops : Device → DeviceOps) : Type 0 where
  pub allocates : (d : Device) (n : ℕ) → length ((ops d).allocate n).1 ≡ n
  pub to_device : (d : Device) → Copying Space.host (space_of d) (ops d).copy_to_device
  pub to_host : (d : Device) → Copying (space_of d) Space.host (ops d).copy_to_host
  pub within : (d : Device) → Copying (space_of d) (space_of d) (ops d).copy_within

-- A tensor with a block of the size of its elements.
abbrev pub WellSized : Tensor → Type 0
WellSized t = (byte_size t.shape t.dtype ≡ some t.num_bytes) × (length t.bytes ≡ t.num_bytes)

same_dtype_refl : (a b : DType) → a ≡ b → same_dtype a b ≡ true
same_dtype_refl a b e = subst (λ x. same_dtype a x ≡ true) e (ground arith)

same_dtype_ne : (a b : DType) → a ≢ b → same_dtype a b ≡ false
same_dtype_ne a b ne = ground arith

module _ (ops : Device → DeviceOps) (reliable : Reliable ops) where
  across-Copying : (d e : Device) → Copying (space_of d) (space_of e) (copy_across_devices ops d e)
  unfolding copy_across_devices Copying
  across-Copying d e n src dst f g = elim (Bool-cases (same_type d.device_type cpu)) [
    | inl t ↦
        if_true _ _ t
        ∙ subst (λ s. (ops e).copy_to_device n (s, src) (space_of e, dst) ≡ some src)
            (sym (host_space d t)) (reliable.to_device e n src dst f g)
    | inr t ↦ if_false _ _ t ∙ elim (Bool-cases (same_type e.device_type cpu)) [
      | inl u ↦
          if_true _ _ u
          ∙ subst (λ s. (ops d).copy_to_host n (space_of d, src) (s, dst) ≡ some src)
              (sym (host_space e u)) (reliable.to_host d n src dst f g)
      | inr u ↦
          if_false _ _ u
          ∙ ap
              (λ o.
                o >>= λ staging. (ops e).copy_to_device n (Space.host, staging) (space_of e, dst))
              (reliable.to_host d n src (replicate n 0) f (length-replicate n 0))
          ∙ reliable.to_device e n src dst f g
    ]
  ]

  -- copy_from of a tensor with as many bytes takes its bytes over.
  copy_from_lem :
      (other t : Tensor)
      → length other.bytes ≡ t.num_bytes
      → length t.bytes ≡ t.num_bytes
      → copy_from ops other t ≡ some (record t { bytes = other.bytes })
  unfolding copy_from Copying
  copy_from_lem other t e f =
      let here = space_of t.device in
      ap (λ o. o >>= λ bs. some (record t { bytes = bs }))
        (elim (Bool-cases (same_device t.device other.device)) [
          | inl u ↦
              if_true _ _ u
              ∙ subst
                  (λ s.
                    (ops t.device).copy_within t.num_bytes (s, other.bytes) (here, t.bytes)
                    ≡ some other.bytes)
                  (same_device-space t.device other.device u)
                  (reliable.within t.device t.num_bytes other.bytes t.bytes e f)
          | inr u ↦
              if_false _ _ u
              ∙ across-Copying other.device t.device t.num_bytes other.bytes t.bytes e f
        ])

  -- A tensor of the shape and type of t on a device, with what its block holds.
  fresh : Device → Tensor → Tensor
  fresh d t = record {
    shape = t.shape;
    dtype = t.dtype;
    layout = contiguous;
    device = d;
    address = ((ops d).allocate t.num_bytes).0;
    num_bytes = t.num_bytes;
    bytes = ((ops d).allocate t.num_bytes).1;
  }

  create-fresh :
      (d : Device) (t : Tensor)
      → byte_size t.shape t.dtype ≡ some t.num_bytes
      → create ops t.shape t.dtype d ≡ some (fresh d t)
  unfolding create fresh
  create-fresh d t e =
      let build : ℕ → Tensor = λ size. record {
        shape = t.shape;
        dtype = t.dtype;
        layout = contiguous;
        device = d;
        address = ((ops d).allocate size).0;
        num_bytes = size;
        bytes = ((ops d).allocate size).1;
      } in
      ap (λ o. o >>= λ size. some (build size)) e

  -- On devices whose copies copy, each between the memories that it is for, to(target) of a tensor with a block of the right size gives a
  -- tensor of the same shape, element type and bytes on the target, whether the target is its own
  -- device, the host, a device reached from the host, or one reached through the host.
  pub to_lem :
      (target : Device) (t : Tensor)
      → WellSized t
      → (r : Tensor) × (to ops target t ≡ some r)
        × (r.shape ≡ t.shape)
        × (r.dtype ≡ t.dtype)
        × (r.device ≡ target)
        × (r.bytes ≡ t.bytes)
        × WellSized r
  unfolding to fresh Copying
  to_lem target t (size, long) =
      let r = fresh target t in
      let same = reliable.allocates target t.num_bytes in
      let across = across-Copying t.device target t.num_bytes t.bytes r.bytes long same in
      (
        record r { bytes = t.bytes },
        ap
              (λ o. o >>= λ r.
                if same_device t.device target
                then copy_from ops t r
                else (copy_across_devices ops t.device target t.num_bytes (block_of t) (block_of r)
                    >>= λ bs. some (record r { bytes = bs })))
              (create-fresh target t size)
            ∙ elim (Bool-cases (same_device t.device target)) [
              | inl u ↦ if_true _ _ u ∙ copy_from_lem t r long same
              | inr u ↦ if_false _ _ u ∙ ap (λ o. o >>= λ bs. some (record r { bytes = bs })) across
            ],
        refl,
        refl,
        refl,
        refl,
        (size, long),
      )

  -- On devices whose copies copy, each between the memories that it is for, to_dtype of a tensor with a block of the right size gives, for
  -- its own element type, a tensor with the same shape, element type, device and bytes, and for any
  -- other one the status not_implemented.
  pub to_dtype_lem :
      (dtype : DType) (t : Tensor)
      → WellSized t
      → (t.dtype ≡ dtype
          → (r : Tensor) × (to_dtype ops dtype t ≡ some (of_value r))
            × (r.shape ≡ t.shape)
            × (r.dtype ≡ t.dtype)
            × (r.device ≡ t.device)
            × (r.bytes ≡ t.bytes))
        × (t.dtype ≢ dtype
            → to_dtype ops dtype t
              ≡ some (
                  of_unexpected (
                    create_status of_not_implemented
                      (some "Dtype conversion not yet implemented"))))
  unfolding to_dtype clone fresh
  to_dtype_lem dtype t (size, long) = (
    λ e.
        let r = fresh t.device t in
        (
          record r { bytes = t.bytes },
          if_true _ _ (same_dtype_refl t.dtype dtype e)
              ∙ ap (λ o. (o >>= copy_from ops t) >>= λ r. some (of_value r))
                  (create-fresh t.device t size)
              ∙ ap (λ o. o >>= λ r. some (of_value r))
                  (copy_from_lem t r long (reliable.allocates t.device t.num_bytes)),
          refl,
          refl,
          refl,
          refl,
        ),
    λ ne. if_false _ _ (same_dtype_ne t.dtype dtype ne),
  )
