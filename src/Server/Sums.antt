-- ===== src/Server/Sums.antt =====
-- Sums of a weight over a list, for the counts of goroutines.
use telnetty.Base.{
  ℕ, zero, suc, ◌+◌, ◌≤◌, ◌<◌, ◌≡◌, List, [], ◌∷◌, ◌++◌, arith, length, get_or, set,
}

module _ {ℓ} {A : Type ℓ} (w : A → ℕ) where
  abbrev pub sum : List A → ℕ
  sum [] = 0
  sum (x ∷ xs) = w x + sum xs

  pub sum-append_one : (xs : List A) (a : A) → sum (xs ++ a ∷ []) ≡ sum xs + w a
  sum-append_one [] a = omega arith
  sum-append_one (x ∷ xs) a = omega (arith, sum-append_one xs a)

  -- What one element weighs is exchanged.
  pub sum-set :
      (xs : List A) (i : ℕ) (a d : A)
      → i < length xs
      → sum (set xs i a) + w (get_or xs i d) ≡ sum xs + w a
  sum-set [] i a d h = absurd (omega arith)
  sum-set (x ∷ xs) zero a d h = omega arith
  sum-set (x ∷ xs) (suc i) a d h = omega (arith, sum-set xs i a d (omega arith))

  pub sum-le : (xs : List A) (i : ℕ) (d : A) → i < length xs → w (get_or xs i d) ≤ sum xs
  sum-le [] i d h = absurd (omega arith)
  sum-le (x ∷ xs) zero d h = omega arith
  sum-le (x ∷ xs) (suc i) d h = omega (arith, sum-le xs i d (omega arith))
