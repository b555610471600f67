-- ===== src/Int64.antt =====
-- Go's int64: an integer in two's complement range, and arithmetic that wraps at 2 ^ 64.
pub mod Laws
use jungle.Base.{ℕ, ◌+◌, ◌-◌, ◌/◌, ◌%◌, ◌^◌, ◌<◌, ◌≤◌, ltb, if◌then◌else◌}
use jungle.Int.{ℤ, pos, negsuc, pos_part, neg_part, sub_ℕ, ◌+ℤ◌, ◌-ℤ◌, ◌*ℤ◌, ltb_ℤ}

abbrev pub two63 : ℕ
two63 = 2 ^ 63

abbrev pub two64 : ℕ
two64 = 2 ^ 64

abbrev pub max_int64 : ℤ
max_int64 = pos (2 ^ 63 - 1)

abbrev pub min_int64 : ℤ
min_int64 = negsuc (2 ^ 63 - 1)

-- The values of the type int64.
abbrev pub IsInt64 : ℤ → Type 0
IsInt64 (pos n) = n < two63
IsInt64 (negsuc n) = n < two63

-- The int64 with the same low 64 bits. The bits of `negsuc n` are the complement of those of `n`.
unfoldable pub wrap64 : ℤ → ℤ
wrap64 (pos n) = if ltb (n % two64) two63 then pos (n % two64) else negsuc (two64 - 1 - n % two64)
wrap64 (negsuc n) =
    if ltb (n % two64) two63 then negsuc (n % two64) else pos (two64 - 1 - n % two64)

-- Go's `a + b`, `-a` and `a * b` on int64.
unfoldable pub add64 : ℤ → ℤ → ℤ
add64 a b = wrap64 (a +ℤ b)

unfoldable pub neg64 : ℤ → ℤ
neg64 a = wrap64 (pos 0 -ℤ a)

unfoldable pub sub64 : ℤ → ℤ → ℤ
sub64 a b = wrap64 (a -ℤ b)

unfoldable pub mul64 : ℤ → ℤ → ℤ
mul64 a b = wrap64 (a *ℤ b)

-- Go's `a / b` on int64, which truncates towards zero; `b` is not zero. The quotient of the least
-- int64 by -1 wraps.
unfoldable pub div64 : ℤ → ℤ → ℤ
div64 (pos a) (pos b) = wrap64 (pos (a / b))
div64 (pos a) (negsuc b) = wrap64 (sub_ℕ 0 (a / (b + 1)))
div64 (negsuc a) (pos b) = wrap64 (sub_ℕ 0 ((a + 1) / b))
div64 (negsuc a) (negsuc b) = wrap64 (pos ((a + 1) / (b + 1)))

-- The conversion `uint64(a)`.
unfoldable pub to_uint64 : ℤ → ℕ
to_uint64 (pos n) = n % two64
to_uint64 (negsuc n) = two64 - 1 - n % two64
