-- ===== src/App/Backoff/Bounds.antt =====
-- internal/app: the bounds of the delay before the next attempt.
use jungle.Base.{ℕ, zero, suc, ◌*◌, ◌^◌, ◌≤◌, ◌<◌, ◌≡◌, arith, ◌||◌, ltb, if◌then◌else◌}
use jungle.Int.{ℤ, pos, ◌≤ℤ◌, leb_ℤ, ltb_ℤ, ◌*ℤ◌}
use jungle.Int64.{mul64, two63}
use jungle.Int64.Laws.{wrap64_id}
use jungle.App.Backoff.{Duration, backoff_for, shift_of}

-- Where the greatest delay of a policy is positive, every delay is positive and at most the
-- greatest, whatever the base and the number of the attempt.
pub backoff_for-bounds :
    (base max : Duration) (attempt : ℤ)
    → pos 1 ≤ℤ max
    → (pos 1 ≤ℤ backoff_for base max attempt) × (backoff_for base max attempt ≤ℤ max)
unfolding backoff_for
backoff_for-bounds base max attempt h = ground arith

pow_mono : (m n : ℕ) → m ≤ n → 2 ^ m ≤ 2 ^ n
pow_mono zero zero h = omega arith
pow_mono zero (suc n) h = omega (arith, pow_mono zero n (omega arith))
pow_mono (suc m) zero h = absurd (omega arith)
pow_mono (suc m) (suc n) h = omega (arith, pow_mono m n (omega arith))

mul_mono : (a b c : ℕ) → a ≤ b → a * c ≤ b * c
mul_mono a b zero h = omega arith
mul_mono a b (suc c) h = omega (arith, mul_mono a b c h)

shift_of-le : (attempt : ℤ) → shift_of attempt ≤ 20
shift_of-le attempt = ground arith

shift_of_mono : (a b : ℤ) → a ≤ℤ b → shift_of a ≤ shift_of b
shift_of_mono a b h = ground arith

le_lt : (a b c : ℕ) → a ≤ b → b < c → a < c
le_lt a b c h k = omega arith

product_fits : (a b : ℕ) → a * b < two63 → mul64 (pos a) (pos b) ≡ pos (a * b)
unfolding mul64 ◌*ℤ◌
product_fits a b h =
    let sum : pos a *ℤ pos b ≡ pos (a * b) = ground arith in rw sum (wrap64_id (pos (a * b)) h)

abbrev capped : ℕ → ℕ → ℤ
capped max n = if ltb max n then pos max else pos n

-- A product that is positive and a value of int64 is capped.
cap_exact :
    (a base max : ℕ)
    → 0 < a * base
    → a * base < two63
    → (if ltb_ℤ (pos max) (mul64 (pos a) (pos base)) || leb_ℤ (mul64 (pos a) (pos base)) (pos 0)
        then pos max
        else mul64 (pos a) (pos base))
      ≡ capped max (a * base)
cap_exact a base max positive h = rw (product_fits a base h) (ground arith)

pow_pos : (n : ℕ) → 0 < 2 ^ n
pow_pos zero = omega arith
pow_pos (suc n) = omega (arith, pow_pos n)

mul_pos : (a b : ℕ) → 0 < a → 0 < b → 0 < a * b
mul_pos a zero h k = absurd (omega arith)
mul_pos a (suc b) h k = omega arith

capped_mono : (max m n : ℕ) → m ≤ n → capped max m ≤ℤ capped max n
capped_mono max m n h = ground arith

module _ (base max : ℕ) (positive : 0 < base) (fits : 2 ^ 20 * base < two63) where
  -- With a positive base that can be doubled twenty times in an int64, the delay is the base
  -- doubled with each attempt, at most twenty times, and cut off at the greatest delay.
  pub backoff_for_exact :
      (attempt : ℤ)
      → backoff_for (pos base) (pos max) attempt ≡ (
          if ltb max (2 ^ shift_of attempt * base)
          then pos max
          else pos (2 ^ shift_of attempt * base))
  unfolding backoff_for
  backoff_for_exact attempt =
      let power = 2 ^ shift_of attempt in
      let small =
        mul_mono power (2 ^ 20) base (pow_mono (shift_of attempt) 20 (shift_of-le attempt)) in
      cap_exact power base max (mul_pos power base (pow_pos (shift_of attempt)) positive)
        (le_lt (power * base) (2 ^ 20 * base) two63 small fits)

  -- With a positive base that can be doubled twenty times in an int64, a later attempt is not
  -- delayed less than an earlier one.
  backoff_for_mono :
      (a b : ℤ) → a ≤ℤ b → backoff_for (pos base) (pos max) a ≤ℤ backoff_for (pos base) (pos max) b
  backoff_for_mono a b h =
      rw (backoff_for_exact a, backoff_for_exact b)
        (capped_mono max (2 ^ shift_of a * base) (2 ^ shift_of b * base) (
          mul_mono (2 ^ shift_of a) (2 ^ shift_of b) base
            (pow_mono (shift_of a) (shift_of b) (shift_of_mono a b h))))
