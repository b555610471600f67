-- ===== src/Money/Overflow/Exact.antt =====
-- internal/domain/money/money.go: what the overflow checks of the int64 helpers decide.
use jungle.Base.{true, ℕ, ◌+◌, ◌*◌, ◌<◌, ◌≡◌, Bool, Option, none, some, arith, if◌then◌else◌, ltb}
use jungle.Int.{sub_ℕ, ℤ, pos, negsuc, eqb_ℤ, ◌+ℤ◌, ◌-ℤ◌, ◌*ℤ◌}
use jungle.Int64.{two63, min_int64, IsInt64, wrap64, add64, neg64, mul64, div64}
use jungle.Money.Overflow.{add_int64, negate_int64, sub_int64, mul_int64}

-- Whether an integer is an int64.
abbrev pub fits : ℤ → Bool
fits (pos n) = ltb n two63
fits (negsuc n) = ltb n two63

-- The integer, if it is an int64.
abbrev pub checked : ℤ → Option ℤ
checked s = if fits s then some s else none

pub fits-IsInt64 : (n : ℤ) → fits n ≡ true → IsInt64 n
fits-IsInt64 (pos n) h = ground arith
fits-IsInt64 (negsuc n) h = ground arith

-- The checked sum of two int64 values is their integer sum where that is an int64, and fails
-- exactly where it is not.
pub add_int64_exact : (a b : ℤ) → IsInt64 a → IsInt64 b → add_int64 a b ≡ checked (a +ℤ b)
unfolding add_int64 add64 wrap64 ◌+ℤ◌
add_int64_exact (pos a) (pos b) ha hb = ground arith
add_int64_exact (pos a) (negsuc b) ha hb = ground arith
add_int64_exact (negsuc a) (pos b) ha hb = ground arith
add_int64_exact (negsuc a) (negsuc b) ha hb = ground arith

-- Negation of an int64 fails exactly at the least one, whose opposite is not an int64.
pub negate_int64_exact : (a : ℤ) → IsInt64 a → negate_int64 a ≡ checked (pos 0 -ℤ a)
unfolding negate_int64 neg64 wrap64 ◌-ℤ◌
negate_int64_exact (pos a) ha = ground arith
negate_int64_exact (negsuc a) ha = ground arith

-- The difference of two int64 values is checked as a sum with the opposite: it is the integer
-- difference where that is an int64, but any difference with the least int64 fails.
pub sub_int64_exact :
    (a b : ℤ)
    → IsInt64 a
    → IsInt64 b
    → sub_int64 a b ≡ (if eqb_ℤ b min_int64 then none else checked (a -ℤ b))
unfolding sub_int64 negate_int64 add_int64 add64 neg64 wrap64 ◌+ℤ◌ ◌-ℤ◌
sub_int64_exact (pos a) (pos b) ha hb = ground arith
sub_int64_exact (pos a) (negsuc b) ha hb = ground arith
sub_int64_exact (negsuc a) (pos b) ha hb = ground arith
sub_int64_exact (negsuc a) (negsuc b) ha hb = ground arith

-- The checked product of an int64 with the scale factor 100 is the integer product where that is an
-- int64, and fails exactly where it is not.
pub mul_int64_scale : (a : ℤ) → IsInt64 a → mul_int64 a (pos 100) ≡ checked (a *ℤ pos 100)
unfolding mul_int64 mul64 div64 wrap64 ◌*ℤ◌
mul_int64_scale (pos a) ha = ground arith
mul_int64_scale (negsuc a) ha = ground arith

-- The same on values that are not negative.
pub mul_scale_nonneg :
    (a : ℕ)
    → a < two63
    → mul_int64 (pos a) (pos 100) ≡ (if ltb (a * 100) two63 then some (pos (a * 100)) else none)
unfolding mul_int64 mul64 div64 wrap64 ◌*ℤ◌
mul_scale_nonneg a ha = ground arith

pub add_nonneg :
    (a b : ℕ)
    → a < two63
    → b < two63
    → add_int64 (pos a) (pos b) ≡ (if ltb (a + b) two63 then some (pos (a + b)) else none)
unfolding add_int64 add64 wrap64 ◌+ℤ◌
add_nonneg a b ha hb = ground arith

pub negate_nonneg : (a : ℕ) → a < two63 → negate_int64 (pos a) ≡ some (sub_ℕ 0 a)
unfolding negate_int64 neg64 wrap64 ◌-ℤ◌
negate_nonneg a ha = ground arith
