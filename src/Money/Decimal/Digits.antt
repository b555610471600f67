-- ===== src/Money/Decimal/Digits.antt =====
-- internal/domain/money/money.go: the digits that `%d` writes spell the number that was written,
-- and the pattern of `Parse` finds them again.
use jungle.Base.{
  Bool-cases, inl, inr, ◌==◌, ltb, ◌≤◌, some, false, ℕ, zero, suc, ◌+◌, ◌/◌, ◌%◌, ◌<◌, ◌≡◌, refl,
  true, [], ◌∷◌, ◌++◌, arith, All,
}
use jungle.Money.Decimal.{
  Text, is_digit, span_digits, digits_value, show_digits, format_uint, format_two, find_submatch,
  split_sign, match_fraction,
}

abbrev pub IsDigit : ℕ → Type 0
IsDigit c = is_digit c ≡ true

code_point-IsDigit : (n : ℕ) → IsDigit (b'0' + n % 10)
code_point-IsDigit n = ground arith

-- Reading the digits of `n` from zero is reading what follows them from `n`.
digits_value-show_digits :
    (fuel n : ℕ) (out : Text)
    → n < fuel
    → digits_value 0 (show_digits fuel n out) ≡ digits_value n out
unfolding digits_value show_digits
digits_value-show_digits zero n out h = elim h [ ]
digits_value-show_digits (suc fuel) n out h =
    ground (arith, digits_value-show_digits fuel (n / 10) ((b'0' + n % 10) ∷ out))

show_digits-IsDigit :
    (fuel n : ℕ) (out : Text) → All IsDigit out → All IsDigit (show_digits fuel n out)
unfolding show_digits
show_digits-IsDigit zero n out h = h
show_digits-IsDigit (suc fuel) n out h =
    ground
      (arith, show_digits-IsDigit fuel (n / 10) ((b'0' + n % 10) ∷ out) (code_point-IsDigit n, h))

show_digits-cons :
    (fuel n c : ℕ) (out : Text) → (d : ℕ) × (ds : Text) × (show_digits fuel n (c ∷ out) ≡ d ∷ ds)
unfolding show_digits
show_digits-cons zero n c out = (c, out, refl)
show_digits-cons (suc fuel) n c out =
    let (d, ds, e) = show_digits-cons fuel (n / 10) (b'0' + n % 10) (c ∷ out) in
    elim (Bool-cases (n / 10 == 0)) [
      | inl last ↦ (b'0' + n % 10, c ∷ out, rw last)
      | inr more ↦ (d, ds, rw more e)
    ]

-- `%d` writes one or more digits, which spell the number.
pub digits_value-format_uint : (n : ℕ) → digits_value 0 (format_uint n) ≡ n
unfolding digits_value format_uint
digits_value-format_uint n = digits_value-show_digits (suc n) n [] (omega arith)

pub format_uint-IsDigit : (n : ℕ) → All IsDigit (format_uint n)
unfolding format_uint
format_uint-IsDigit n = show_digits-IsDigit (suc n) n [] tt

pub format_uint-cons : (n : ℕ) → (d : ℕ) × (ds : Text) × (format_uint n ≡ d ∷ ds)
unfolding format_uint show_digits
format_uint-cons n =
    let (d, ds, e) = show_digits-cons n (n / 10) (b'0' + n % 10) [] in
    elim (Bool-cases (n / 10 == 0)) [
      | inl last ↦ (b'0' + n % 10, [], rw last)
      | inr more ↦ (d, ds, rw more e)
    ]

two_digits :
    (n : ℕ) → n < 100 → 10 ≤ n → show_digits (suc n) n [] ≡ (b'0' + n / 10) ∷ (b'0' + n % 10) ∷ []
unfolding show_digits
two_digits zero h k = absurd (omega arith)
two_digits (suc n) h k = ground arith

-- `%02d` of a number below one hundred writes its two digits.
pub format_two_lem : (n : ℕ) → n < 100 → format_two n ≡ (b'0' + n / 10) ∷ (b'0' + n % 10) ∷ []
unfolding format_two format_uint
format_two_lem n h = elim (Bool-cases (ltb n 10)) [
  | inl one ↦ rw one (ground arith)
  | inr two ↦ rw two (two_digits n h (ground arith))
]

span_digits-append :
    (ds rest : Text) → All IsDigit ds → span_digits (ds ++ b'.' ∷ rest) ≡ (ds, b'.' ∷ rest)
unfolding span_digits
span_digits-append [] rest h = refl
span_digits-append (c ∷ ds) rest h = ground (arith, span_digits-append ds rest h.1)

-- The pattern of `Parse` finds the sign, the digits and the two decimals of such a text.
pub find_submatch-unsigned :
    (d : ℕ) (ds : Text) (a b : ℕ)
    → All IsDigit (d ∷ ds)
    → IsDigit a
    → IsDigit b
    → find_submatch (d ∷ ds ++ b'.' ∷ a ∷ b ∷ []) ≡ some (false, d ∷ ds, a ∷ b ∷ [])
unfolding split_sign match_fraction find_submatch
find_submatch-unsigned d ds a b h ha hb = ground (arith, span_digits-append (d ∷ ds) (a ∷ b ∷ []) h)

pub find_submatch-negative :
    (d : ℕ) (ds : Text) (a b : ℕ)
    → All IsDigit (d ∷ ds)
    → IsDigit a
    → IsDigit b
    → find_submatch (b'-' ∷ d ∷ ds ++ b'.' ∷ a ∷ b ∷ []) ≡ some (true, d ∷ ds, a ∷ b ∷ [])
unfolding split_sign match_fraction find_submatch
find_submatch-negative d ds a b h ha hb = ground (arith, span_digits-append (d ∷ ds) (a ∷ b ∷ []) h)
