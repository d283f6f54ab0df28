-- ===== src/Base/Sums.antt =====
-- Sums over lists, as the counts of what a list of parts holds.
use scicompute.Base.{
  ℕ, zero, suc, ◌+◌, ◌≡◌, ap, List, [], ◌∷◌, ◌++◌, some, arith, get_elem?, set, some_inj,
}

module _ {ℓ} {A : Type ℓ} where
  unfoldable pub sum_by : (A → ℕ) → List A → ℕ
  sum_by f [] = 0
  sum_by f (x ∷ xs) = f x + sum_by f xs

  pub sum_by-append :
      (f : A → ℕ) (xs : List A) (x : A) → sum_by f (xs ++ x ∷ []) ≡ sum_by f xs + f x
  unfolding sum_by
  sum_by-append f [] x = omega arith
  sum_by-append f (y ∷ xs) x = omega (arith, sum_by-append f xs x)

  pub sum_by-set :
      (f : A → ℕ) (xs : List A) (i : ℕ) (old new : A)
      → get_elem? xs i ≡ some old
      → sum_by f (set xs i new) + f old ≡ sum_by f xs + f new
  unfolding sum_by
  sum_by-set f [] i old new e = cc
  sum_by-set f (x ∷ xs) zero old new e = omega (arith, ap f (some_inj e))
  sum_by-set f (x ∷ xs) (suc i) old new e = omega (arith, sum_by-set f xs i old new e)
