-- ===== src/Math/Reduction/Tests.antt =====
-- The reductions of whole numbers.
use scicompute.Base.{ℕ, ◌≡◌, some, arith}
use scicompute.Base.Int.{negsuc}
use scicompute.Core.Expected.{of_value}
use scicompute.Math.Float.{ℕ_float, ℕ-IsOrdered}
use scicompute.Math.Samples.{left, fresh, length-fresh, left-Holds}
use scicompute.Math.Reduction.{max, min, argmax, sum, prod, mean, var, std, norm}
use scicompute.Math.Reduction.Extremes.{Foremost, FirstMax}
use scicompute.Math.Reduction.Results.{Scalar, extremes_lem, sums_lem}

extremes_lem_example :
    ((m : ℕ) × Scalar (max fresh left) m × Foremost ℕ_float.lt left.floats 6 m)
    × ((m : ℕ) × Scalar (min fresh left) m × Foremost (λ x y. ℕ_float.lt y x) left.floats 6 m)
    × ((i : ℕ) × (m : ℕ) × (argmax fresh (negsuc 0) left ≡ some (of_value i))
        × FirstMax ℕ-IsOrdered left.floats 6 i m)
extremes_lem_example = extremes_lem fresh length-fresh ℕ-IsOrdered left 6 left-Holds (omega arith)

sums_lem_example :
    (average variance : ℕ) × (average ≡ 23)
    × (variance ≡ 133)
    × Scalar (sum fresh left) 23
    × Scalar (prod fresh left) 540
    × Scalar (mean fresh left) average
    × Scalar (var fresh left) variance
    × Scalar (std fresh left) variance
    × Scalar (norm fresh 2 left) 23
sums_lem_example = sums_lem fresh length-fresh 2 left 6 left-Holds
