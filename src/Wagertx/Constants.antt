-- ===== src/Wagertx/Constants.antt =====
-- internal/domain/wagertx: kind.go, status.go and failure_code.go. Each of the three string types
-- has a constructor for each of its constants, and `other` for any other text.
use jungle.Base.{String, Bool, true, false, ◌||◌, str_eq}

pub data Kind : Type 0 where
  opening bet win loss refund rollback : Kind
  other : String → Kind

-- The map `externalKinds`, and `IsValidExternal`.
unfoldable pub is_valid_external : Kind → Bool
is_valid_external bet = true
is_valid_external win = true
is_valid_external loss = true
is_valid_external refund = true
is_valid_external rollback = true
is_valid_external _ = false

abbrev pub is_opening : Kind → Bool
is_opening opening = true
is_opening _ = false

-- `IsValid`
unfoldable pub kind_is_valid : Kind → Bool
unfolding is_valid_external
kind_is_valid k = is_opening k || is_valid_external k

-- `RequiresReference`
unfoldable pub requires_reference : Kind → Bool
requires_reference refund = true
requires_reference rollback = true
requires_reference _ = false

abbrev is_win : Kind → Bool
is_win win = true
is_win _ = false

-- `AllowsReference`
unfoldable pub allows_reference : Kind → Bool
unfolding requires_reference
allows_reference k = is_win k || requires_reference k

pub data Status : Type 0 where
  pending pending_reference processed rejected failed : Status
  other : String → Status

-- The map `allowedTransitions`; a missing key reads as false.
unfoldable pub allowed : Status → Status → Bool
allowed pending processed = true
allowed pending rejected = true
allowed pending failed = true
allowed pending pending_reference = true
allowed pending_reference processed = true
allowed pending_reference rejected = true
allowed pending_reference failed = true
allowed _ _ = false

-- The map `validStatuses`, and `IsValid`.
unfoldable pub status_is_valid : Status → Bool
status_is_valid (Status.other s) = false
status_is_valid _ = true

-- `IsTerminal` of a status
unfoldable pub status_is_terminal : Status → Bool
status_is_terminal processed = true
status_is_terminal rejected = true
status_is_terminal failed = true
status_is_terminal _ = false

-- The zero value of the type is the empty text, `none`.
pub data FailureCode : Type 0 where
  none insufficient_balance insufficient_balance_for_reversal : FailureCode
  reference_not_found reference_mismatch reference_not_successful : FailureCode
  duplicate_reversal currency_mismatch invalid_amount infrastructure_failure : FailureCode
  other : String → FailureCode

-- `code == ""`
unfoldable pub is_no_code : FailureCode → Bool
is_no_code FailureCode.none = true
is_no_code (FailureCode.other s) = str_eq s ""
is_no_code _ = false
