-- ===== src/Core/Shape/Tests.antt =====
-- Shapes of vectors.
use scicompute.Base.{◌≡◌, none, List, [], ◌∷◌, refl, false}
use scicompute.Base.Int.{ℤ, pos, mul_int64, int64}
use scicompute.Core.Shape.{
  of_vector, of_initializer_list, copy_dims, num_elements, product_from, of_array, copy_array,
  write_dims, write, is_empty,
}

-- An initializer list of nine dimensions is cut to eight, yet the shape counts nine, and
-- `num_elements` reads behind the array.
nine_dims :
    num_elements (
      of_initializer_list
        (pos 1 ∷ pos 1 ∷ pos 1 ∷ pos 1 ∷ pos 1 ∷ pos 1 ∷ pos 1 ∷ pos 1 ∷ pos 1 ∷ []))
    ≡ none
unfolding num_elements of_initializer_list copy_dims product_from mul_int64 int64
nine_dims = refl

-- The constructors from an array and from a vector agree.
abbrev six_dims : List ℤ
six_dims = pos 2 ∷ pos 3 ∷ pos 0 ∷ pos 0 ∷ pos 0 ∷ pos 0 ∷ pos 0 ∷ pos 0 ∷ []

arrays : of_array six_dims (pos 2) ≡ of_vector (pos 2 ∷ pos 3 ∷ [])
unfolding of_array of_vector copy_array write_dims write
arrays = refl

not_empty : is_empty (of_initializer_list (pos 2 ∷ [])) ≡ false
unfolding is_empty of_initializer_list
not_empty = refl
