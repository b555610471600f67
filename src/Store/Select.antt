-- ===== src/Store/Select.antt =====
-- The SQL `SELECT ... WHERE test ORDER BY key LIMIT n` of internal/postgres: the rows that pass a
-- test, the first `n` in an order. SQL leaves the order of equal rows open: here the older is first.
pub mod Laws
use jungle.Base.{ℕ, Bool, true, false, List, [], ◌∷◌, take, if◌then◌else◌}

module _ {ℓ} {A : Type ℓ} where
  unfoldable pub keep : (A → Bool) → List A → List A
  keep test [] = []
  keep test (x ∷ xs) = if test x then x ∷ keep test xs else keep test xs

  -- A row put in front of the first one that it does not come after.
  unfoldable pub insert_by : (A → A → Bool) → A → List A → List A
  insert_by le x [] = x ∷ []
  insert_by le x (y ∷ ys) = if le x y then x ∷ y ∷ ys else y ∷ insert_by le x ys

  unfoldable pub sort_by : (A → A → Bool) → List A → List A
  sort_by le [] = []
  sort_by le (x ∷ xs) = insert_by le x (sort_by le xs)

  unfoldable pub select : (A → Bool) → (A → A → Bool) → ℕ → List A → List A
  select test le n xs = take n (sort_by le (keep test xs))
