-- ===== src/App/Backoff.antt =====
-- internal/app: the delay before the next attempt. `ReferencePolicy.backoffFor` of
-- resolve_references.go and `PublishPolicy.backoffFor` of publish_outbox.go are the same code on
-- two fields of their policies. A `time.Duration` is an int64 of nanoseconds.
pub mod Bounds
use jungle.Base.{ℕ, ◌-◌, ◌^◌, ◌||◌, ltb, if◌then◌else◌}
use jungle.Values.{Time}
use jungle.Int.{ℤ, pos, pos_part, ◌+ℤ◌, ◌-ℤ◌, ltb_ℤ, leb_ℤ}
use jungle.Int64.{mul64, max_int64, min_int64}

abbrev pub Duration : Type 0
Duration = ℤ

-- `attempt` is at least 1 here.
abbrev pub shift_of : ℤ → ℕ
shift_of attempt =
    let a = if ltb_ℤ attempt (pos 1) then pos 1 else attempt in
    let shift = pos_part a - 1 in if ltb 20 shift then 20 else shift

-- `math.Pow` is exact on these powers of 2.
unfoldable pub backoff_for : Duration → Duration → ℤ → Duration
backoff_for base max attempt =
    let delay = mul64 (pos (2 ^ shift_of attempt)) base in
    if ltb_ℤ max delay || leb_ℤ delay (pos 0) then max else delay

-- `Time.Add`; the program meets no time before the zero value.
abbrev pub add_time : Time → Duration → Time
add_time t d = pos_part (pos t +ℤ d)

-- `Time.Sub`, which stops at the ends of int64.
abbrev pub sub_time : Time → Time → Duration
sub_time t u =
    let d = pos t -ℤ pos u in
    if ltb_ℤ max_int64 d then max_int64 else if ltb_ℤ d min_int64 then min_int64 else d
