-- ===== src/Tensor/Options.antt =====
-- `TensorOptions`, the assignment of tensors and the copy of a view, of src/tensor/tensor.cpp, in a
-- build without `SCI_DEBUG`. `none` is undefined behaviour.
mod Tests
use scicompute.Base.{ℕ, ◌≡◌, Bool, true, false, Option, some, none, List, if◌then◌else◌}
use scicompute.Base.Fallible.{◌>>=◌}
use scicompute.Core.Types.{DType, float32, Layout, contiguous}
use scicompute.Core.Shape.{TensorShape}
use scicompute.Tensor.{Tensor, Device}
use scicompute.Tensor.View.{TensorView, num_bytes}
use scicompute.Tensor.Data.Memory.{DeviceOps, space_of}
use scicompute.Tensor.Data.{create, copy_construct, moved_from, block_of}

record TensorOptions : Type 0 where
  pub dtype : DType
  pub device : Option Device
  pub layout : Layout
  pub requires_grad : Bool

-- `TensorOptions()`
default_options : TensorOptions
default_options = record {
  dtype = float32;
  device = none;
  layout = contiguous;
  requires_grad = false;
}

set_dtype : DType → TensorOptions → TensorOptions
set_dtype dtype o = record o { dtype = dtype }

-- `set_device(device)`, and `set_device(type, id)` with what `get_device` gives.
set_device : Option Device → TensorOptions → TensorOptions
set_device device o = record o { device = device }

set_layout : Layout → TensorOptions → TensorOptions
set_layout layout o = record o { layout = layout }

set_requires_grad : Bool → TensorOptions → TensorOptions
set_requires_grad value o = record o { requires_grad = value }

-- `operator=(Tensor&& other)`: the tensor and the other one afterwards.
move_assign : (same_object : Bool) → (other t : Tensor) → Tensor × Tensor
unfolding moved_from
move_assign true other t = (t, other)
move_assign false other t = (other, moved_from other)

module _ (ops : Device → DeviceOps) where
  -- `create(shape)`, which uses neither the layout nor the gradient flag.
  create_with : TensorShape → TensorOptions → Option Tensor
  unfolding create
  create_with shape o = o.device >>= λ device. create ops shape o.dtype device

  -- `operator=(const Tensor& other)`
  copy_assign : (same_object : Bool) → (other t : Tensor) → Option Tensor
  unfolding move_assign copy_construct
  copy_assign true other t = some t
  copy_assign false other t =
      copy_construct ops other >>= λ copied. some ((move_assign false copied t).0)

  -- `TensorView::clone`, where `found` is what `get_device` gives and `src` what memory holds at
  -- the address of the view.
  view_clone : (found : Option Device) → (src : List ℕ) → TensorView → Option Tensor
  unfolding create num_bytes
  view_clone found src v = found >>= λ device. create ops v.shape v.dtype device >>= λ t.
      num_bytes v >>= λ n.
      (ops device).copy_to_device n (space_of device, src) (block_of t) >>= λ bs.
      some (record t { bytes = bs })
