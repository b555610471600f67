-- ===== src/Base/Growth.antt =====
-- A list that grows at its end while its entries go on by a relation.
use mathlib.Core.List.{List, [], ◌∷◌, ◌++◌}

module _ {ℓ} {A : Type ℓ} (R : A → A → Type 0) where
  -- Each entry of the first list is at its place in the second, changed by `R` at most.
  abbrev pub Extends : List A → List A → Type 0
  Extends [] ys = Unit
  Extends (x ∷ xs) [] = ⊥
  Extends (x ∷ xs) (y ∷ ys) = R x y × Extends xs ys

  pub Extends-append : ((x : A) → R x x) → (xs ys : List A) → Extends xs (xs ++ ys)
  Extends-append same [] ys = tt
  Extends-append same (x ∷ xs) ys = (same x, Extends-append same xs ys)

  pub Extends-refl : ((x : A) → R x x) → (xs : List A) → Extends xs xs
  Extends-refl same [] = tt
  Extends-refl same (x ∷ xs) = (same x, Extends-refl same xs)

  pub Extends-trans :
      ((x y z : A) → R x y → R y z → R x z)
      → (xs ys zs : List A) → Extends xs ys
      → Extends ys zs
      → Extends xs zs
  Extends-trans join [] ys zs p q = tt
  Extends-trans join (x ∷ xs) [] zs p q = absurd p
  Extends-trans join (x ∷ xs) (y ∷ ys) [] p q = absurd q
  Extends-trans join (x ∷ xs) (y ∷ ys) (z ∷ zs) (p, ps) (q, qs) =
      (join x y z p q, Extends-trans join xs ys zs ps qs)
