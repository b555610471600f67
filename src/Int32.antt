-- ===== src/Int32.antt =====
-- Go's conversion of an int to int32, which keeps the low 32 bits.
use jungle.Base.{ℕ, ◌-◌, ◌%◌, ◌^◌, ltb, if◌then◌else◌}
use jungle.Int.{ℤ, pos, negsuc}

abbrev pub two31 : ℕ
two31 = 2 ^ 31

abbrev pub two32 : ℕ
two32 = 2 ^ 32

-- The bits of `negsuc n` are the complement of those of `n`.
unfoldable pub wrap32 : ℤ → ℤ
wrap32 (pos n) = if ltb (n % two32) two31 then pos (n % two32) else negsuc (two32 - 1 - n % two32)
wrap32 (negsuc n) =
    if ltb (n % two32) two31 then negsuc (n % two32) else pos (two32 - 1 - n % two32)
