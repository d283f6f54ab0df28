-- ===== src/Math/Samples.antt =====
-- Tensors of whole numbers of two rows and three columns, for the tests.
use scicompute.Base.{ℕ, ◌≡◌, refl, List, [], ◌∷◌, length, replicate, length-replicate, arith}
use scicompute.Core.Types.{float32, bfloat16}
use scicompute.Core.Shape.Rows.{num_elements-volume}
use scicompute.Tensor.Samples.{shape, shape-HasDims}
use scicompute.Math.Arrays.{FloatTensor}
use scicompute.Math.Elementwise.Results.{Holds}

abbrev pub left : FloatTensor ℕ
left = record { shape = shape; dtype = float32; floats = 3 ∷ 1 ∷ 4 ∷ 1 ∷ 5 ∷ 9 ∷ [] }

abbrev pub right : FloatTensor ℕ
right = record { shape = shape; dtype = float32; floats = 2 ∷ 7 ∷ 1 ∷ 8 ∷ 2 ∷ 8 ∷ [] }

-- The same elements where each has two bytes.
abbrev pub half : FloatTensor ℕ
half = record { shape = shape; dtype = bfloat16; floats = 3 ∷ 1 ∷ 4 ∷ [] }

abbrev pub fresh : ℕ → List ℕ
fresh n = replicate n 0

pub length-fresh : (n : ℕ) → length (fresh n) ≡ n
length-fresh n = length-replicate n 0

pub left-Holds : Holds left 6
left-Holds = (num_elements-volume shape 2 (3 ∷ []) shape-HasDims (omega arith), refl, refl)

pub right-Holds : Holds right 6
right-Holds = (num_elements-volume shape 2 (3 ∷ []) shape-HasDims (omega arith), refl, refl)
