-- ===== src/Math/Normalization/Tests.antt =====
-- Normalizations of two rows of three whole numbers.
use scicompute.Base.{ℕ, ◌*◌, ◌<◌, ◌≡◌, some, List, [], ◌∷◌, length, arith}
use scicompute.Base.Int.{pos}
use scicompute.Math.Float.{ℕ_float}
use scicompute.Math.Samples.{left, right}
use scicompute.Math.Normalization.{layer_norm_f32, rms_norm_f32}
use scicompute.Math.Normalization.Results.{RowOf, layer_of, rms_of, norms_lem}

norms_lem_example :
    ((y : List ℕ) × (layer_norm_f32
          (some (1 ∷ 2 ∷ 3 ∷ []))
          (some (4 ∷ 5 ∷ 6 ∷ []))
          7
          (pos 2)
          (pos 3)
          left.floats
          right.floats
        ≡ some y)
      × (length y ≡ 6)
      × ((i : ℕ)
          → i < 2
          → RowOf (layer_of (1 ∷ 2 ∷ 3 ∷ []) (4 ∷ 5 ∷ 6 ∷ []) 7 3) 3 left.floats (i * 3) y))
    × ((y : List ℕ) × (rms_norm_f32
            (some (1 ∷ 2 ∷ 3 ∷ []))
            7
            (pos 2)
            (pos 3)
            left.floats
            right.floats
          ≡ some y)
        × (length y ≡ 6)
        × ((i : ℕ) → i < 2 → RowOf (rms_of (1 ∷ 2 ∷ 3 ∷ []) 7 3) 3 left.floats (i * 3) y))
norms_lem_example =
    norms_lem (1 ∷ 2 ∷ 3 ∷ []) (4 ∷ 5 ∷ 6 ∷ []) left.floats right.floats 7 2 3 (omega arith)
      (omega arith) (omega arith) (omega arith) (omega arith)
