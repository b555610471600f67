-- ===== src/Base/Apart.antt =====
-- Lists in which no entry clashes with an earlier one.
use mathlib.Core.Path.{◌≡◌, refl}
use mathlib.Core.Bool.{Bool, false, ◌||◌}
use mathlib.Core.List.{List, [], ◌∷◌, ◌++◌, map}
use native.Mathlib.Omega.{arith}

module _ {ℓ} {A : Type ℓ} where
  abbrev pub any : (A → Bool) → List A → Bool
  any test [] = false
  any test (x ∷ xs) = test x || any test xs

  -- `clash y x`: the entry `y` may not stand behind `x`.
  abbrev pub Distinct : (A → A → Bool) → List A → Type 0
  Distinct clash [] = Unit
  Distinct clash (x ∷ xs) = (any (λ y. clash y x) xs ≡ false) × Distinct clash xs

  any-append :
      (test : A → Bool) (xs : List A) (y : A)
      → any test xs ≡ false
      → test y ≡ false
      → any test (xs ++ y ∷ []) ≡ false
  any-append test [] y h p = ground (arith, p)
  any-append test (x ∷ xs) y h p = ground (arith, h, any-append test xs y, p)

  pub Distinct-append :
      (clash : A → A → Bool) (xs : List A) (new : A)
      → Distinct clash xs
      → any (clash new) xs ≡ false
      → Distinct clash (xs ++ new ∷ [])
  Distinct-append clash [] new d h = (refl, tt)
  Distinct-append clash (x ∷ xs) new (far, d) h = (
    any-append (λ y. clash y x) xs new far (ground (arith, h)),
    Distinct-append clash xs new d (ground (arith, h)),
  )

  -- Where entries clash by what `f` keeps of them, so do the lists.
  module _ (f : A → A) (clash : A → A → Bool)
      (same : (y x : A) → clash (f y) (f x) ≡ clash y x) where
    any-map : (x : A) (ys : List A) → any (λ y. clash y (f x)) (map f ys) ≡ any (λ y. clash y x) ys
    any-map x [] = refl
    any-map x (y ∷ ys) = rw (same y x, any-map x ys) refl

    Distinct-of-map : (xs : List A) → Distinct clash (map f xs) → Distinct clash xs
    Distinct-of-map [] d = tt
    Distinct-of-map (x ∷ xs) (far, d) = (rw (any-map x xs) at far, Distinct-of-map xs d)

    map-Distinct : (xs : List A) → Distinct clash xs → Distinct clash (map f xs)
    map-Distinct [] d = tt
    map-Distinct (x ∷ xs) (far, d) = (rw (any-map x xs) far, map-Distinct xs d)

    pub Distinct-update :
        (xs ys : List A) → map f ys ≡ map f xs → Distinct clash xs → Distinct clash ys
    Distinct-update xs ys e d = Distinct-of-map ys (rw e (map-Distinct xs d))
