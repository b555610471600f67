-- ===== src/Examples/Amounts.antt =====
-- internal/domain/money on concrete amounts.
use jungle.Base.{◌≡◌, ◌↔◌, ap, refl, true, none, [], ◌∷◌, arith, if◌then◌else◌}
use jungle.Int.{pos, negsuc, ◌+ℤ◌, ◌-ℤ◌, ◌*ℤ◌, eqb_ℤ, neg_part}
use jungle.Int64.{min_int64, max_int64}
use jungle.Result.{ok, err, overflow, invalid_format}
use jungle.Money.{Money, from_minor_units, parse, decimal_string, add, sub, compare_money, equal}
use jungle.Money.Decimal.{find_submatch, Text}
use jungle.Money.Overflow.{add_int64, sub_int64, mul_int64}
use jungle.Money.Overflow.Exact.{checked, add_int64_exact, sub_int64_exact}
use jungle.Money.Arithmetic.{equal_iff}
use jungle.Money.RoundTrip.{parse_exact, parse-decimal_string, parse_reference}

abbrev ten : Money
ten = from_minor_units (pos 1000) "BRL"

abbrev three : Money
three = from_minor_units (pos 300) "BRL"

abbrev dollars : Money
dollars = from_minor_units (pos 1000) "USD"

add_int64_exact_example : add_int64 max_int64 (pos 1) ≡ checked (max_int64 +ℤ pos 1)
add_int64_exact_example = add_int64_exact max_int64 (pos 1) (omega arith) (omega arith)

sub_int64_exact_example :
    sub_int64 (pos 0) min_int64
    ≡ (if eqb_ℤ min_int64 min_int64 then none else checked (pos 0 -ℤ min_int64))
sub_int64_exact_example = sub_int64_exact (pos 0) min_int64 (omega arith) (omega arith)

-- "12.50"
abbrev text : Text
text = 49 ∷ 50 ∷ 46 ∷ 53 ∷ 48 ∷ []

parse-text : parse text "BRL" ≡ ok (from_minor_units (pos 1250) "BRL")
unfolding parse find_submatch jungle.Money.Decimal.parse_int mul_int64 jungle.Int64.div64
    jungle.Int64.mul64 jungle.Int64.wrap64 ◌*ℤ◌ add_int64 jungle.Int64.add64 ◌+ℤ◌
parse-text = refl

-- "12.5" has one decimal.
parse-short : parse (49 ∷ 50 ∷ 46 ∷ 53 ∷ []) "BRL" ≡ err invalid_format
unfolding parse find_submatch
parse-short = refl

-- The text of the least int64 is refused: its magnitude is read before its sign.
parse-decimal_string-least :
    parse (decimal_string (from_minor_units min_int64 "BRL")) "BRL" ≡ err overflow
unfolding decimal_string parse find_submatch jungle.Money.Decimal.format_uint jungle.Int64.to_uint64
    jungle.Int64.neg64 jungle.Int64.wrap64 ◌-ℤ◌ jungle.Int64.add64 ◌+ℤ◌
    jungle.Money.Decimal.format_two jungle.Money.Decimal.parse_int mul_int64 jungle.Int64.div64
    jungle.Int64.mul64 ◌*ℤ◌ add_int64
parse-decimal_string-least = refl

parse_exact_example : parse text "BRL" ≡ parse_reference "BRL" (find_submatch text)
parse_exact_example = parse_exact 49 (50 ∷ 46 ∷ 53 ∷ 48 ∷ []) "BRL"

parse-decimal_string_example :
    parse (decimal_string (from_minor_units (negsuc 4) "BRL")) "BRL"
    ≡ ok (from_minor_units (negsuc 4) "BRL")
parse-decimal_string_example =
    parse-decimal_string (negsuc 4) "BRL" (omega arith) (λ e. absurd (omega (arith, ap neg_part e)))

compare-ten : compare_money ten three ≡ ok (pos 1)
unfolding compare_money
compare-ten = refl

equal_iff_example : (equal ten dollars ≡ true) ↔ (ten ≡ dollars)
equal_iff_example = equal_iff ten dollars
