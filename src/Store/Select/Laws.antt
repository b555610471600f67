-- ===== src/Store/Select/Laws.antt =====
-- A selection has rows of the table that pass the test, and no more than were asked for.
use jungle.Base.{
  ℕ, zero, suc, ◌≤◌, ◌≡◌, Bool, true, List, [], ◌∷◌, take, length, length-take, inl, inr,
  Bool-cases, All,
}
use jungle.Store.Select.{keep, insert_by, sort_by, select}

module _ {ℓ κ} {A : Type ℓ} (P : A → Type κ) where
  pub All-keep :
      (test : A → Bool) (xs : List A) → All P xs → All (λ x. (test x ≡ true) × P x) (keep test xs)
  unfolding keep
  All-keep test [] h = tt
  All-keep test (x ∷ xs) (p, h) = elim (Bool-cases (test x)) [
    | inl passes ↦ rw passes ((passes, p), All-keep test xs h)
    | inr fails ↦ rw fails (All-keep test xs h)
  ]

  All-insert_by :
      (le : A → A → Bool) (x : A) (ys : List A) → P x → All P ys → All P (insert_by le x ys)
  unfolding insert_by
  All-insert_by le x [] p h = (p, tt)
  All-insert_by le x (y ∷ ys) p (q, h) = elim (Bool-cases (le x y)) [
    | inl before ↦ rw before (p, (q, h))
    | inr after ↦ rw after (q, All-insert_by le x ys p h)
  ]

  pub All-sort_by : (le : A → A → Bool) (xs : List A) → All P xs → All P (sort_by le xs)
  unfolding sort_by
  All-sort_by le [] h = tt
  All-sort_by le (x ∷ xs) (p, h) = All-insert_by le x (sort_by le xs) p (All-sort_by le xs h)

  pub All-take : (n : ℕ) (xs : List A) → All P xs → All P (take n xs)
  All-take zero xs h = tt
  All-take (suc n) [] h = tt
  All-take (suc n) (x ∷ xs) (p, h) = (p, All-take n xs h)

module _ {ℓ κ} {A : Type ℓ} (P : A → Type κ) (test : A → Bool) (le : A → A → Bool) where
  -- What holds of every row of the table holds of every row selected, and each passes the test.
  pub All-select :
      (n : ℕ) (xs : List A) → All P xs → All (λ x. (test x ≡ true) × P x) (select test le n xs)
  unfolding select
  All-select n xs h =
      All-take (λ x. (test x ≡ true) × P x) n (sort_by le (keep test xs))
        (All-sort_by (λ x. (test x ≡ true) × P x) le (keep test xs) (All-keep P test xs h))

module _ {ℓ} {A : Type ℓ} (test : A → Bool) (le : A → A → Bool) where
  pub length-select : (n : ℕ) (xs : List A) → length (select test le n xs) ≤ n
  unfolding select
  length-select n xs = length-take n (sort_by le (keep test xs))
