-- ===== src/Tensor.antt =====
-- `Tensor` and `TensorView` of src/tensor/tensor.cpp.
pub mod View
pub mod Data
mod Options
pub mod Samples
use scicompute.Base.{ℕ, List}
use scicompute.Core.Types.{DType, Layout, DeviceType}
use scicompute.Core.Shape.{TensorShape}
use scicompute.Base.Int.{ℤ}

-- What a tensor uses of its device: its kind and its number.
pub record Device : Type 0 where
  pub device_type : DeviceType
  pub id : ℤ

-- The buffer is its address, 0 for the null pointer, its size, and the bytes there.
pub record Tensor : Type 0 where
  pub shape : TensorShape
  pub dtype : DType
  pub layout : Layout
  pub device : Device
  pub address : ℕ
  pub num_bytes : ℕ
  pub bytes : List ℕ
