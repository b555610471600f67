-- ===== src/Money.antt =====
-- internal/domain/money/money.go: amounts of a currency in int64 minor units (cents), their
-- checked arithmetic, and their decimal texts.
pub mod Decimal
pub mod Overflow
pub mod RoundTrip
pub mod Arithmetic
pub mod Bounds
use jungle.Base.{
  ℕ, ◌+◌, ◌/◌, ◌%◌, String, Bool, true, false, ◌&&◌, not, Option, none, some, List, [], ◌∷◌, ◌++◌,
  leb, str_eq, if◌then◌else◌, codes,
}
use jungle.Int.{ℤ, pos, negsuc, ltb_ℤ, eqb_ℤ}
use jungle.Int64.{add64, neg64, to_uint64}
use jungle.Result.{
  Result, ok, err, ◌>>=◌, ◌>>◌, fail_if, empty_amount, invalid_format, overflow,
  money_currency_mismatch, negative_amount, invalid_currency,
}
use Decimal.{Text, find_submatch, parse_int, format_uint, format_two}
use Overflow.{add_int64, sub_int64, negate_int64, mul_int64}

-- `type Currency string`
abbrev pub Currency : Type 0
Currency = String

abbrev pub is_upper : ℕ → Bool
is_upper c = leb b'A' c && leb c b'Z'

-- `^[A-Z]{3}$`
abbrev pub matches_currency : List ℕ → Bool
matches_currency (a ∷ b ∷ c ∷ []) = is_upper a && is_upper b && is_upper c
matches_currency _ = false

-- `NewCurrency`
unfoldable pub new_currency : String → Result Currency
new_currency code = if matches_currency (codes code) then ok code else err invalid_currency

-- `scaleFactor`
abbrev pub scale_factor : ℕ
scale_factor = 100

pub record Money : Type 0 where
  pub minor_units : ℤ
  pub currency : Currency

-- `Zero`
abbrev pub zero_of : Currency → Money
zero_of c = record { minor_units = pos 0; currency = c }

-- `FromMinorUnits`
abbrev pub from_minor_units : ℤ → Currency → Money
from_minor_units n c = record { minor_units = n; currency = c }

-- An operation that failed is `ErrOverflow`.
abbrev or_overflow : Option ℤ → Result ℤ
or_overflow none = err overflow
or_overflow (some n) = ok n

-- The part of `Parse` behind the match. `frac` is read from two digits.
unfoldable pub parse_match : Currency → Bool × Text × Text → Result Money
parse_match c (negative, integer_part, fraction_part) = do
  whole ← or_overflow (parse_int integer_part)
  frac ← (elim (parse_int fraction_part) [ none ↦ err invalid_format | some n ↦ ok n ])
  whole_minor ← or_overflow (mul_int64 whole (pos scale_factor))
  minor_units ← or_overflow (add_int64 whole_minor frac)
  signed ←
      (if negative && not (eqb_ℤ minor_units (pos 0))
        then or_overflow (negate_int64 minor_units)
        else ok minor_units)
  ok (from_minor_units signed c)

-- `Parse`
unfoldable pub parse : Text → Currency → Result Money
unfolding parse_match
parse [] c = err empty_amount
parse (b ∷ s) c = elim (find_submatch (b ∷ s)) [
  | none ↦ err invalid_format
  | some m ↦ parse_match c m
]

abbrev pub is_zero : Money → Bool
is_zero m = eqb_ℤ m.minor_units (pos 0)

abbrev pub is_negative : Money → Bool
is_negative m = ltb_ℤ m.minor_units (pos 0)

abbrev pub is_positive : Money → Bool
is_positive m = ltb_ℤ (pos 0) m.minor_units

-- `ParseNonNegative`
unfoldable pub parse_non_negative : Text → Currency → Result Money
parse_non_negative s c = do m ← parse s c; fail_if (is_negative m) negative_amount; ok m

-- `DecimalString`
unfoldable pub decimal_string : Money → Text
decimal_string m =
    let negative = ltb_ℤ m.minor_units (pos 0) in
    let magnitude =
      if negative
      then to_uint64 (neg64 (add64 m.minor_units (pos 1))) + 1
      else to_uint64 m.minor_units in
    (if negative then b'-' ∷ [] else [])
    ++ format_uint (magnitude / scale_factor)
    ++ b'.' ∷ format_two (magnitude % scale_factor)

-- `sameCurrency`
unfoldable pub same_currency : Money → Money → Result (Unit {0})
same_currency m other = fail_if (not (str_eq m.currency other.currency)) money_currency_mismatch

-- `Add`
unfoldable pub add : Money → Money → Result Money
unfolding same_currency
add m other = do
  same_currency m other
  sum ← or_overflow (add_int64 m.minor_units other.minor_units)
  ok (from_minor_units sum m.currency)

-- `Sub`
unfoldable pub sub : Money → Money → Result Money
unfolding same_currency
sub m other = do
  same_currency m other
  diff ← or_overflow (sub_int64 m.minor_units other.minor_units)
  ok (from_minor_units diff m.currency)

-- `Negate`
unfoldable pub negate : Money → Result Money
negate m = do
  negated ← or_overflow (negate_int64 m.minor_units)
  ok (from_minor_units negated m.currency)

-- `Compare`
unfoldable pub compare_money : Money → Money → Result ℤ
unfolding same_currency
compare_money m other = do
  same_currency m other
  ok (
      if ltb_ℤ m.minor_units other.minor_units
      then negsuc 0
      else if ltb_ℤ other.minor_units m.minor_units
      then pos 1
      else pos 0)

-- `Equal`
unfoldable pub equal : Money → Money → Bool
equal m other = eqb_ℤ m.minor_units other.minor_units && str_eq m.currency other.currency

-- `jsonMoney`; the JSON text of the struct is the encoding/json package's.
pub record JsonMoney : Type 0 where
  pub amount : Text
  pub currency : String

-- `MarshalJSON`, before the encoding of the struct.
unfoldable pub to_json : Money → JsonMoney
to_json m = record { amount = decimal_string m; currency = m.currency }

-- `UnmarshalJSON`, after the decoding of the struct.
unfoldable pub of_json : JsonMoney → Result Money
of_json j = do c ← new_currency j.currency; parse j.amount c
