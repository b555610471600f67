-- ===== src/Money/Decimal.antt =====
-- Texts of amounts in internal/domain/money/money.go: the pattern that `Parse` matches, and the
-- number formats that it and `DecimalString` use. A text is the list of its bytes.
pub mod Digits
use jungle.Base.{
  ℕ, zero, suc, ◌+◌, ◌-◌, ◌*◌, ◌/◌, ◌%◌, Bool, true, false, ◌&&◌, Option, none, some, List, [], ◌∷◌,
  ◌++◌, leb, ltb, ◌==◌, if◌then◌else◌,
}
use jungle.Int.{ℤ, pos}
use jungle.Int64.{two63}

abbrev pub Text : Type 0
Text = List ℕ

abbrev pub is_digit : ℕ → Bool
is_digit c = leb b'0' c && leb c b'9'

-- `[0-9]*`, greedy: the digits in front and the rest.
unfoldable pub span_digits : Text → Text × Text
span_digits [] = ([], [])
span_digits (c ∷ s) =
    let (ds, rest) = span_digits s in if is_digit c then (c ∷ ds, rest) else ([], c ∷ s)

-- `\.([0-9]{2})$`
unfoldable pub match_fraction : Text → Option Text
match_fraction (dot ∷ c ∷ d ∷ []) =
    if dot == b'.' && is_digit c && is_digit d then some (c ∷ d ∷ []) else none
match_fraction _ = none

abbrev pub match_parts : Text × Text → Option (Text × Text)
match_parts ([], rest) = none
match_parts (c ∷ ds, rest) = elim (match_fraction rest) [
  | none ↦ none
  | some fraction ↦ some (c ∷ ds, fraction)
]

-- `^(-)?`: whether the sign is there, and the rest.
unfoldable pub split_sign : Text → Bool × Text
split_sign [] = (false, [])
split_sign (c ∷ s) = if c == b'-' then (true, s) else (false, c ∷ s)

-- `decimalPattern.FindStringSubmatch`: whether `matches[1]` is "-", `matches[2]` and `matches[3]`.
unfoldable pub find_submatch : Text → Option (Bool × Text × Text)
unfolding split_sign span_digits match_fraction
find_submatch s =
    let (negative, unsigned) = split_sign s in
    elim (match_parts (span_digits unsigned)) [
      | none ↦ none
      | some (whole, fraction) ↦ some (negative, whole, fraction)
    ]

-- The number that decimal digits spell, behind the digits of `acc`.
unfoldable pub digits_value : ℕ → Text → ℕ
digits_value acc [] = acc
digits_value acc (c ∷ ds) = digits_value (acc * 10 + (c - b'0')) ds

-- `strconv.ParseInt(s, 10, 64)` on a text of digits: an error if the number is no int64.
unfoldable pub parse_int : Text → Option ℤ
unfolding digits_value
parse_int ds = let n = digits_value 0 ds in if ltb n two63 then some (pos n) else none

-- The digits of `n` in front of `out`. A round divides `n` by ten, so fuel above `n` is enough.
unfoldable pub show_digits : ℕ → ℕ → Text → Text
show_digits zero n out = out
show_digits (suc fuel) n out =
    let longer = (b'0' + n % 10) ∷ out in
    let more = show_digits fuel (n / 10) longer in if n / 10 == 0 then longer else more

-- `%d` of an unsigned number.
unfoldable pub format_uint : ℕ → Text
unfolding show_digits
format_uint n = show_digits (suc n) n []

-- `%02d` of an unsigned number: at least two digits.
unfoldable pub format_two : ℕ → Text
unfolding format_uint
format_two n = if ltb n 10 then b'0' ∷ (b'0' + n) ∷ [] else format_uint n
