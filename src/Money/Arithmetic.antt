-- ===== src/Money/Arithmetic.antt =====
-- internal/domain/money/money.go: the operations on amounts against the integers.
use jungle.Base.{◌≡◌, ◌↔◌, true, Option, none, some, arith, str_eq, eq_iff, if◌then◌else◌}
use jungle.Int.{ℤ, pos, ◌+ℤ◌, ◌-ℤ◌, eqb_ℤ, eq_of_parts}
use jungle.Int64.{IsInt64, min_int64}
use jungle.Result.{Result, ok, err, overflow, money_currency_mismatch}
use jungle.Money.{Money, Currency, from_minor_units, add, sub, compare_money, equal}
use jungle.Money.Overflow.Exact.{checked, add_int64_exact, sub_int64_exact}

-- An amount whose minor units are an int64.
abbrev pub IsMoney : Money → Type 0
IsMoney m = IsInt64 m.minor_units

-- The amount of an integer result, or the overflow error.
abbrev pub amount_of : Option ℤ → Currency → Result Money
amount_of none c = err overflow
amount_of (some n) c = ok (from_minor_units n c)

-- `Add` is the integer sum of two amounts of one currency if that is an int64, an overflow if it is
-- not, and a mismatch for two currencies.
pub add_exact :
    (m o : Money)
    → IsMoney m
    → IsMoney o
    → add m o ≡ (
        if str_eq m.currency o.currency
        then amount_of (checked (m.minor_units +ℤ o.minor_units)) m.currency
        else err money_currency_mismatch)
unfolding add
add_exact m o hm ho = ground (arith, add_int64_exact m.minor_units o.minor_units hm ho)

-- `Sub` is the integer difference of two amounts of one currency if that is an int64 and the
-- subtrahend is not the least int64, an overflow otherwise, and a mismatch for two currencies.
pub sub_exact :
    (m o : Money)
    → IsMoney m
    → IsMoney o
    → sub m o ≡ (
        if str_eq m.currency o.currency
        then (if eqb_ℤ o.minor_units min_int64
            then err overflow
            else amount_of (checked (m.minor_units -ℤ o.minor_units)) m.currency)
        else err money_currency_mismatch)
unfolding sub
sub_exact m o hm ho = ground (arith, sub_int64_exact m.minor_units o.minor_units hm ho)

-- `Equal` decides equality of amounts.
pub equal_iff : (m o : Money) → (equal m o ≡ true) ↔ (m ≡ o)
unfolding equal
equal_iff m o =
    ground (arith, eq_iff m.currency o.currency, eq_of_parts m.minor_units o.minor_units)

-- Where `Compare` answers, its answer to the arguments in the other order is the opposite.
pub compare_opposite :
    (m o : Money) (r : ℤ) → compare_money m o ≡ ok r → compare_money o m ≡ ok (pos 0 -ℤ r)
unfolding compare_money ◌-ℤ◌
compare_opposite m o r h =
    ground (arith, eq_iff m.currency o.currency, eq_iff o.currency m.currency)

-- `Compare` returns 0 exactly on equal amounts.
pub compare_zero_iff : (m o : Money) → (compare_money m o ≡ ok (pos 0)) ↔ (m ≡ o)
unfolding compare_money
compare_zero_iff m o =
    ground (arith, eq_iff m.currency o.currency, eq_of_parts m.minor_units o.minor_units)
