-- ===== src/Money/Bounds.antt =====
-- internal/domain/money/money.go: an amount that was parsed is an int64.
use jungle.Base.{◌≡◌, arith, ℕ, Bool, true, false, ◌∷◌, [], Option, none, some}
use jungle.Result.{ok, negative_amount, passed, >>=-eq-ok}
use jungle.Money.{Money, Currency, parse, parse_non_negative, is_negative}
use jungle.Money.Decimal.{Text, find_submatch}
use jungle.Money.RoundTrip.{parse_exact, parse_reference, parsed, decimal_value}
use jungle.Money.Arithmetic.{IsMoney}

parsed-IsMoney :
    (c : Currency) (negative : Bool) (n : ℕ) (m : Money) → parsed c negative n ≡ ok m → IsMoney m
parsed-IsMoney c true n m h = ground arith
parsed-IsMoney c false n m h = ground arith

parse_reference-IsMoney :
    (c : Currency) (o : Option (Bool × Text × Text)) (m : Money)
    → parse_reference c o ≡ ok m
    → IsMoney m
parse_reference-IsMoney c none m h = cc
parse_reference-IsMoney c (some (negative, whole, fraction)) m h =
    parsed-IsMoney c negative (decimal_value whole fraction) m h

pub parse-IsMoney : (s : Text) (c : Currency) (m : Money) → parse s c ≡ ok m → IsMoney m
unfolding parse
parse-IsMoney [] c m h = cc
parse-IsMoney (b ∷ s) c m h =
    parse_reference-IsMoney c (find_submatch (b ∷ s)) m (rw (parse_exact b s c) at h)

pub parse_non_negative-IsMoney :
    (s : Text) (c : Currency) (m : Money) → parse_non_negative s c ≡ ok m → IsMoney m
unfolding parse_non_negative
parse_non_negative-IsMoney s c m h =
    let (m₁, read, h₁) = >>=-eq-ok (parse s c) _ h in
    let (_, same) = passed (is_negative m₁) negative_amount (ok m₁) h₁ in
    let is : m ≡ m₁ = cc in rw is (parse-IsMoney s c m₁ read)
