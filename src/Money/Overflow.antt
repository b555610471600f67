-- ===== src/Money/Overflow.antt =====
-- The checked int64 arithmetic at the end of internal/domain/money/money.go. The pair
-- `(0, false)` is `none`, and `(v, true)` is `some v`.
pub mod Exact
use jungle.Base.{Option, none, some, ◌&&◌, ◌||◌, not, if◌then◌else◌}
use jungle.Int.{ℤ, pos, negsuc, ltb_ℤ, eqb_ℤ}
use jungle.Int64.{min_int64, add64, neg64, mul64, div64}

-- `addInt64`
unfoldable pub add_int64 : ℤ → ℤ → Option ℤ
add_int64 a b =
    let sum = add64 a b in
    if ltb_ℤ (pos 0) b && ltb_ℤ sum a || ltb_ℤ b (pos 0) && ltb_ℤ a sum then none else some sum

-- `negateInt64`
unfoldable pub negate_int64 : ℤ → Option ℤ
negate_int64 a = if eqb_ℤ a min_int64 then none else some (neg64 a)

-- `subInt64`
unfoldable pub sub_int64 : ℤ → ℤ → Option ℤ
sub_int64 a b = elim (negate_int64 b) [ none ↦ none | some neg_b ↦ add_int64 a neg_b ]

-- `mulInt64`
unfoldable pub mul_int64 : ℤ → ℤ → Option ℤ
mul_int64 a b =
    if eqb_ℤ a (pos 0) || eqb_ℤ b (pos 0)
    then some (pos 0)
    else if eqb_ℤ a min_int64 && eqb_ℤ b (negsuc 0) || eqb_ℤ b min_int64 && eqb_ℤ a (negsuc 0)
    then none
    else let result = mul64 a b in if eqb_ℤ (div64 result b) a then some result else none
