-- ===== src/Int64/Laws.antt =====
-- The wrap-around of int64 arithmetic: it is the identity on values in range, stays in range, and
-- differs from the integer result by exactly 2 ^ 64 where one addition leaves the range.
use jungle.Base.{◌+◌, ◌≤◌, ◌<◌, ◌≡◌, arith}
use jungle.Int.{ℤ, pos, negsuc, pos_part, neg_part}
use jungle.Int64.{IsInt64, two63, two64, wrap64}

pub wrap64-IsInt64 : (a : ℤ) → IsInt64 (wrap64 a)
unfolding wrap64
wrap64-IsInt64 (pos n) = ground arith
wrap64-IsInt64 (negsuc n) = ground arith

pub wrap64_id : (a : ℤ) → IsInt64 a → wrap64 a ≡ a
unfolding wrap64
wrap64_id (pos n) h = ground arith
wrap64_id (negsuc n) h = ground arith

-- The bounds of a value in range, in the form that `omega` reads.
pub IsInt64-bounds : (a : ℤ) → IsInt64 a → (pos_part a < two63) × (neg_part a ≤ two63)
IsInt64-bounds (pos n) h = omega arith
IsInt64-bounds (negsuc n) h = omega arith

pub bounded-IsInt64 : (a : ℤ) → pos_part a < two63 → neg_part a ≤ two63 → IsInt64 a
bounded-IsInt64 (pos n) h k = h
bounded-IsInt64 (negsuc n) h k = omega arith

-- Past the upper bound the wrapped value is 2 ^ 64 less.
pub wrap64_above :
    (a : ℤ) → two63 ≤ pos_part a → pos_part a < two64 → neg_part (wrap64 a) + pos_part a ≡ two64
unfolding wrap64
wrap64_above (pos n) h k = ground arith
wrap64_above (negsuc n) h k = absurd (omega arith)

pub wrap64_above_pos : (a : ℤ) → two63 ≤ pos_part a → pos_part a < two64 → pos_part (wrap64 a) ≡ 0
unfolding wrap64
wrap64_above_pos (pos n) h k = ground arith
wrap64_above_pos (negsuc n) h k = absurd (omega arith)

-- Below the lower bound it is 2 ^ 64 more.
pub wrap64_below :
    (a : ℤ) → two63 < neg_part a → neg_part a ≤ two64 → pos_part (wrap64 a) + neg_part a ≡ two64
unfolding wrap64
wrap64_below (pos n) h k = absurd (omega arith)
wrap64_below (negsuc n) h k = ground arith

pub wrap64_below_neg : (a : ℤ) → two63 < neg_part a → neg_part a ≤ two64 → neg_part (wrap64 a) ≡ 0
unfolding wrap64
wrap64_below_neg (pos n) h k = absurd (omega arith)
wrap64_below_neg (negsuc n) h k = ground arith
