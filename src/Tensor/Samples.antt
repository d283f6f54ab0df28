-- ===== src/Tensor/Samples.antt =====
-- A tensor of two rows and three columns, for the tests.
use scicompute.Base.{ℕ, zero, suc, ◌≡◌, refl, ap, some, some_inj, [], ◌∷◌, replicate, get_elem?}
use scicompute.Base.Int.{pos}
use scicompute.Core.Types.{float32, contiguous, cpu}
use scicompute.Core.Shape.{TensorShape}
use scicompute.Core.Shape.Rows.{HasDims}
use scicompute.Tensor.{Tensor, Device}

abbrev pub shape : TensorShape
shape = record {
  dims = pos 2 ∷ pos 3 ∷ pos 0 ∷ pos 0 ∷ pos 0 ∷ pos 0 ∷ pos 0 ∷ pos 0 ∷ [];
  ndims = pos 2;
}

abbrev pub host : Device
host = record { device_type = cpu; id = pos 0 }

abbrev pub tensor : Tensor
tensor = record {
  shape = shape;
  dtype = float32;
  layout = contiguous;
  device = host;
  address = 4096;
  num_bytes = 24;
  bytes = replicate 24 0;
}

pub shape-HasDims : HasDims shape (2 ∷ 3 ∷ [])
shape-HasDims = (refl, reads)
  where
    reads :
        (k d : ℕ)
        → get_elem? {A = ℕ} (2 ∷ 3 ∷ []) k ≡ some d
        → get_elem? shape.dims k ≡ some (pos d)
    reads zero d e = ap (λ n. some (pos n)) (some_inj e)
    reads (suc zero) d e = ap (λ n. some (pos n)) (some_inj e)
    reads (suc (suc k)) d e = cc
