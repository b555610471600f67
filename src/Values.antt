-- ===== src/Values.antt =====
-- Values of packages that the program uses: a UUID is a number of which only equality and the zero
-- value `uuid.Nil` matter, and a `time.Time` is the nanoseconds since its zero value (the start of
-- year 1; the program meets no earlier time). `UTC()` keeps the instant.
use jungle.Base.{ℕ, Bool, ◌==◌}

abbrev pub Uuid : Type 0
Uuid = ℕ

-- `uuid.Nil`
abbrev pub nil_id : Uuid
nil_id = 0

abbrev pub is_nil : Uuid → Bool
is_nil id = id == nil_id

abbrev pub Time : Type 0
Time = ℕ

-- `Time.IsZero`
abbrev pub is_zero_time : Time → Bool
is_zero_time t = t == 0
