-- ===== src/Tensor/Data/Tests.antt =====
-- Filling and copying a tensor of two rows and three columns.
use scicompute.Base.{
  false, ◌*◌, ◌≤◌, ◌<◌, ◌≡◌, ◌⊎◌, ◌%◌, ◌^◌, refl, ap, some, none, [], ◌∷◌, length, take, arith,
}
use scicompute.Base.Int.{pos, to_size}
use scicompute.Base.Fallible.{◌>>=◌}
use scicompute.Core.Types.{cuda, dtype_size}
use scicompute.Core.Shape.{num_elements}
use scicompute.Core.Shape.Rows.{num_elements-volume}
use scicompute.Tensor.{Tensor, Device}
use scicompute.Tensor.Samples.{tensor, shape-HasDims}
use scicompute.Tensor.Data.Memory.{
  cpu_ops, DeviceOps, Space, space_of, same_type, copy_between, cpu_allocate, memset,
}
use scicompute.Tensor.Data.{one_float32, byte_size, fill, to}
use scicompute.Tensor.Data.Repeats.{copies}
use scicompute.Tensor.Data.Fills.{fill_lem}
use scicompute.Tensor.Data.Spaces.{copy_between-Copying, length-cpu_allocate}
use scicompute.Tensor.Data.Copies.{WellSized, Reliable, to_lem}

six : num_elements tensor.shape ≡ some (pos 6)
six = num_elements-volume tensor.shape 2 (3 ∷ []) shape-HasDims (omega arith)

fill_lem_example :
    ((same_type tensor.device.device_type cuda ≡ false)
      × (((dtype_size tensor.dtype ≤ length one_float32)
            × (fill one_float32 tensor
                ≡ some (record tensor {
                  bytes = copies 6 (take (dtype_size tensor.dtype) one_float32);
                })))
          ⊎ ((length one_float32 < dtype_size tensor.dtype) × (fill one_float32 tensor ≡ none))))
    ⊎ ((tensor.device.device_type ≡ cuda) × (fill one_float32 tensor ≡ none))
unfolding dtype_size
fill_lem_example = fill_lem one_float32 tensor 6 six refl (omega arith)

tensor-WellSized : WellSized tensor
unfolding byte_size dtype_size
tensor-WellSized = (ap (λ o. o >>= λ n. some ((to_size n * 4) % 2 ^ 64)) six, refl)

abbrev accelerator : Device
accelerator = record { device_type = cuda; id = pos 0 }

-- Devices that copy between the right memories and refuse every other copy.
abbrev routed : Device → DeviceOps
routed d = record {
  allocate = cpu_allocate 8192;
  copy_to_device = copy_between Space.host (space_of d);
  copy_to_host = copy_between (space_of d) Space.host;
  copy_within = copy_between (space_of d) (space_of d);
  set_bytes = memset;
}

routed-Reliable : Reliable routed
routed-Reliable = record {
  allocates = λ d n. length-cpu_allocate 8192 n (omega arith);
  to_device = λ d. copy_between-Copying Space.host (space_of d);
  to_host = λ d. copy_between-Copying (space_of d) Space.host;
  within = λ d. copy_between-Copying (space_of d) (space_of d);
}

-- On the CPU these are the operations of `CPUDevice`.
routed_cpu : routed tensor.device ≡ cpu_ops 8192
unfolding cpu_ops
routed_cpu = refl

to_lem_example :
    (r : Tensor) × (to routed accelerator tensor ≡ some r)
    × (r.shape ≡ tensor.shape)
    × (r.dtype ≡ tensor.dtype)
    × (r.device ≡ accelerator)
    × (r.bytes ≡ tensor.bytes)
    × WellSized r
to_lem_example = to_lem routed routed-Reliable accelerator tensor tensor-WellSized
