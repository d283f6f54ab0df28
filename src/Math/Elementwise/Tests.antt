-- ===== src/Math/Elementwise/Tests.antt =====
-- The elementwise kernels on whole numbers.
use scicompute.Base.{◌+◌, ◌*◌, ◌≡◌, none, [], ◌∷◌, arith}
use scicompute.Core.Types.{dtype_size}
use scicompute.Core.Shape.Rows.{num_elements-volume}
use scicompute.Tensor.Samples.{shape, shape-HasDims}
use scicompute.Math.Float.{ℕ_float}
use scicompute.Math.Samples.{left, right, half, fresh, length-fresh, left-Holds, right-Holds}
use scicompute.Math.Elementwise.{add, sub, mul, div}
use scicompute.Math.Elementwise.Results.{Pairwise, binary_lem, narrow_lem}

binary_lem_example :
    Pairwise (λ a b. a + b) left right (add fresh left right)
    × Pairwise (λ a b. a) left right (sub fresh left right)
    × Pairwise (λ a b. a * b) left right (mul fresh left right)
    × Pairwise (λ a b. a) left right (div fresh left right)
binary_lem_example = binary_lem fresh length-fresh left right 6 left-Holds right-Holds (omega arith)

narrow_lem_example :
    (add fresh half half ≡ none)
    × (sub fresh half half ≡ none)
    × (mul fresh half half ≡ none)
    × (div fresh half half ≡ none)
unfolding dtype_size
narrow_lem_example =
    narrow_lem fresh length-fresh half half 6
      (num_elements-volume shape 2 (3 ∷ []) shape-HasDims (omega arith)) (omega arith) (omega arith)
      (omega arith)
