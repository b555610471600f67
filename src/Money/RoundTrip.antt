-- ===== src/Money/RoundTrip.antt =====
-- internal/domain/money/money.go: what `Parse` accepts, and that it reads what `DecimalString`
-- writes.
use jungle.Base.{
  ℕ, ◌+◌, ◌*◌, ◌/◌, ◌%◌, ◌<◌, ◌≡◌, ◌∙◌, ◌≢◌, Bool, true, false, some, none, [], ◌∷◌, ◌++◌, arith,
  if◌then◌else◌, ltb, Option, Option-cases, inl, inr,
}
use jungle.Int.{ℤ, pos, negsuc, ◌+ℤ◌, ◌-ℤ◌, sub_ℕ}
use jungle.Int64.{IsInt64, two63, min_int64, to_uint64, neg64, add64, wrap64}
use jungle.Result.{Result, ok, err, overflow, invalid_format}
use jungle.Money.{Money, Currency, parse, parse_match, decimal_string, from_minor_units}
use jungle.Money.Decimal.{
  Text, span_digits, match_fraction, match_parts, split_sign, find_submatch, digits_value,
  format_uint, format_two, parse_int,
}
use jungle.Money.Decimal.Digits.{
  digits_value-format_uint, format_uint-IsDigit, format_uint-cons, format_two_lem,
  find_submatch-unsigned, find_submatch-negative,
}
use jungle.Money.Overflow.Exact.{mul_scale_nonneg, add_nonneg, negate_nonneg}

-- The value in minor units of the matched parts of a text.
unfoldable pub decimal_value : Text → Text → ℕ
unfolding digits_value
decimal_value whole fraction = digits_value 0 whole * 100 + digits_value 0 fraction

abbrev pub signed : Bool → ℕ → ℤ
signed true v = sub_ℕ 0 v
signed false v = pos v

-- What `Parse` returns for a text with the given parts, read off the mathematical value.
abbrev pub parsed : Currency → Bool → ℕ → Result Money
parsed c negative v =
    if ltb v two63 then ok (from_minor_units (signed negative v) c) else err overflow

abbrev pub parse_reference : Currency → Option (Bool × Text × Text) → Result Money
parse_reference c none = err invalid_format
parse_reference c (some (negative, whole, fraction)) =
    parsed c negative (decimal_value whole fraction)

match_fraction-bound :
    (s fraction : Text) → match_fraction s ≡ some fraction → digits_value 0 fraction < 100
unfolding match_fraction digits_value
match_fraction-bound (x ∷ y ∷ z ∷ []) fraction h = ground arith
match_fraction-bound s fraction h = cc

match_parts-bound :
    (p : Text × Text) {whole fraction : Text}
    → match_parts p ≡ some (whole, fraction)
    → digits_value 0 fraction < 100
match_parts-bound ([], rest) h = cc
match_parts-bound (c ∷ ds, rest) {fraction = f} h = elim (Option-cases (match_fraction rest)) [
  | inl missing ↦ cc
  | inr (g, e) ↦ match_fraction-bound rest f (cc)
]

find_submatch-bound :
    (s : Text) {negative : Bool} {whole fraction : Text}
    → find_submatch s ≡ some (negative, whole, fraction)
    → digits_value 0 fraction < 100
unfolding find_submatch
find_submatch-bound s {whole = w} h =
    match_parts-bound (span_digits (split_sign s).1) {whole = w} (ground arith)

parse_match_lem :
    (c : Currency) (negative : Bool) (whole fraction : Text)
    → digits_value 0 fraction < 100
    → parse_match c (negative, whole, fraction) ≡ parsed c negative (decimal_value whole fraction)
unfolding parse_match parse_int decimal_value
parse_match_lem c negative whole fraction h =
    let q = digits_value 0 whole in
    let f = digits_value 0 fraction in
    ground (arith, mul_scale_nonneg q, add_nonneg (q * 100) f, negate_nonneg (q * 100 + f))

-- A text that matches the pattern is read as its mathematical value, and is refused as an overflow
-- exactly where the magnitude is 2 ^ 63 or more; a text that does not match has an invalid format.
pub parse_exact :
    (b : ℕ) (s : Text) (c : Currency) → parse (b ∷ s) c ≡ parse_reference c (find_submatch (b ∷ s))
unfolding parse
parse_exact b s c = elim (Option-cases (find_submatch (b ∷ s))) [
  | inl unmatched ↦ rw (unmatched, parse)
  | inr ((negative, whole, fraction), e) ↦
      rw (e, parse) (parse_match_lem c negative whole fraction (find_submatch-bound (b ∷ s) e))
]

decimal_string_lem :
    (n : ℕ) (c : Currency)
    → n < two63
    → decimal_string (from_minor_units (pos n) c)
      ≡ format_uint (n / 100) ++ b'.' ∷ format_two (n % 100)
unfolding decimal_string to_uint64
decimal_string_lem n c h = ground arith

decimal_string_negative :
    (n : ℕ) (c : Currency)
    → n < two63
    → decimal_string (from_minor_units (negsuc n) c)
      ≡ b'-' ∷ format_uint ((n + 1) / 100) ++ b'.' ∷ format_two ((n + 1) % 100)
unfolding decimal_string to_uint64 neg64 add64 wrap64 ◌+ℤ◌ ◌-ℤ◌
decimal_string_negative n c h = ground arith

-- A printed magnitude and sign are found again by the pattern.
printed : ℕ → Text
printed n = format_uint (n / 100) ++ b'.' ∷ format_two (n % 100)

decimal_value-printed :
    (n : ℕ)
    → decimal_value (format_uint (n / 100)) ((b'0' + n % 100 / 10) ∷ (b'0' + n % 100 % 10) ∷ []) ≡ n
unfolding decimal_value
decimal_value-printed n = omega (arith, digits_value-format_uint (n / 100))

find_submatch-printed :
    (n : ℕ)
    → find_submatch (printed n)
      ≡ some (false, format_uint (n / 100), (b'0' + n % 100 / 10) ∷ (b'0' + n % 100 % 10) ∷ [])
unfolding printed
find_submatch-printed n =
    let (d, ds, e) = format_uint-cons (n / 100) in
    rw (format_two_lem (n % 100) (omega arith), e)
      (find_submatch-unsigned d ds (b'0' + n % 100 / 10) (b'0' + n % 100 % 10)
        (rw e at (format_uint-IsDigit (n / 100))) (ground arith) (ground arith))

find_submatch-printed_negative :
    (n : ℕ)
    → find_submatch (b'-' ∷ printed n)
      ≡ some (true, format_uint (n / 100), (b'0' + n % 100 / 10) ∷ (b'0' + n % 100 % 10) ∷ [])
unfolding printed
find_submatch-printed_negative n =
    let (d, ds, e) = format_uint-cons (n / 100) in
    rw (format_two_lem (n % 100) (omega arith), e)
      (find_submatch-negative d ds (b'0' + n % 100 / 10) (b'0' + n % 100 % 10)
        (rw e at (format_uint-IsDigit (n / 100))) (ground arith) (ground arith))

printed-cons : (n : ℕ) → (d : ℕ) × (ds : Text) × (printed n ≡ d ∷ ds)
unfolding printed
printed-cons n =
    let (d, ds, e) = format_uint-cons (n / 100) in (d, ds ++ b'.' ∷ format_two (n % 100), rw e)

-- `Parse` on a printed text.
parse-printed : (n : ℕ) (c : Currency) → parse (printed n) c ≡ parsed c false n
parse-printed n c =
    let (d, ds, e) = printed-cons n in
    rw e (parse_exact d ds c ∙ rw (← e) (rw find_submatch-printed (rw decimal_value-printed)))

parse-printed_negative : (n : ℕ) (c : Currency) → parse (b'-' ∷ printed n) c ≡ parsed c true n
parse-printed_negative n c =
    parse_exact b'-' (printed n) c ∙ rw find_submatch-printed_negative (rw decimal_value-printed)

-- Every int64 amount but the least one is read back from its decimal text.
pub parse-decimal_string :
    (n : ℤ) (c : Currency)
    → IsInt64 n
    → n ≢ min_int64
    → parse (decimal_string (from_minor_units n c)) c ≡ ok (from_minor_units n c)
unfolding printed
parse-decimal_string (pos n) c h k =
    rw (decimal_string_lem n c h) (ground (arith, parse-printed n c))
parse-decimal_string (negsuc n) c h k =
    rw (decimal_string_negative n c h) (ground (arith, parse-printed_negative (n + 1) c))
