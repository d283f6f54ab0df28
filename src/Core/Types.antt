-- ===== src/Core/Types.antt =====
-- The enumerations of include/core/types.hpp, and the size of an element.
use Prim.Native.String.{String}
use scicompute.Base.{ℕ}

pub data DType : Type 0 where
  float32 : DType
  float16 : DType
  bfloat16 : DType
  int8 : DType
  int32 : DType
  int64 : DType
  bool : DType
  float64 : DType
  uint8 : DType

unfoldable pub dtype_size : DType → ℕ
dtype_size float32 = 4
dtype_size float16 = 2
dtype_size bfloat16 = 2
dtype_size int8 = 1
dtype_size int32 = 4
dtype_size int64 = 8
dtype_size bool = 1
dtype_size float64 = 8
dtype_size uint8 = 1

pub dtype_name : DType → String
dtype_name float32 = "float32"
dtype_name float16 = "float16"
dtype_name bfloat16 = "bfloat16"
dtype_name int8 = "int8"
dtype_name int32 = "int32"
dtype_name int64 = "int64"
dtype_name bool = "bool"
dtype_name float64 = "float64"
dtype_name uint8 = "uint8"

pub data Layout : Type 0 where
  contiguous : Layout
  column_major : Layout
  strided : Layout

pub data DeviceType : Type 0 where
  cpu : DeviceType
  cuda : DeviceType
  cpu_pinned : DeviceType

pub layout_name : Layout → String
layout_name contiguous = "contiguous"
layout_name column_major = "column_major"
layout_name strided = "strided"

pub device_type_name : DeviceType → String
device_type_name cpu = "cpu"
device_type_name cuda = "cuda"
device_type_name cpu_pinned = "cpu_pinned"

pub record MemoryDesc : Type 0 where
  pub device : DeviceType
  pub dtype : DType
  pub layout : Layout
  pub alignment : ℕ

-- `MemoryDesc()`
pub default_desc : MemoryDesc
default_desc = record { device = cpu; dtype = float32; layout = contiguous; alignment = 64 }

pub bytes_per_element : MemoryDesc → ℕ
unfolding dtype_size
bytes_per_element d = dtype_size d.dtype
