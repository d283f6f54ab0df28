-- ===== src/Math/Softmax/Tests.antt =====
-- Softmax of two rows of three whole numbers.
use scicompute.Base.{ℕ, ◌<◌, ◌≡◌, some, List, length, arith}
use scicompute.Base.Int.{negsuc}
use scicompute.Core.Expected.{of_value}
use scicompute.Tensor.Samples.{shape-HasDims}
use scicompute.Math.Float.{ℕ_float, ℕ-IsOrdered}
use scicompute.Math.Samples.{left, fresh, length-fresh, left-Holds}
use scicompute.Math.Softmax.{softmax}
use scicompute.Math.Softmax.Rows.{RowDone, softmax_lem}

softmax_lem_example :
    (y : List ℕ) × (softmax fresh (negsuc 0) left ≡ some (of_value (record left { floats = y })))
    × (length y ≡ 6)
    × ((i : ℕ) → i < 2 → RowDone 3 left.floats y i)
softmax_lem_example =
    softmax_lem fresh ℕ-IsOrdered left 2 3 length-fresh shape-HasDims left-Holds (omega arith)
      (omega arith) (omega arith)
