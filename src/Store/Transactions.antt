-- ===== src/Store/Transactions.antt =====
-- internal/postgres/transaction_repo.go over the table `wager_transaction` of migrations/000002.
use jungle.Base.{
  String, Bool, false, ◌&&◌, ◌||◌, Option, none, some, List, [], ◌∷◌, ◌==◌, str_eq, if◌then◌else◌,
}
use jungle.Values.{Uuid, Time, nil_id, is_nil}
use jungle.Int.{ℤ}
use jungle.Money.{Money, Currency, from_minor_units}
use jungle.Wagertx.{WagerTransaction, rehydrate, is_processed, no_money}
use jungle.Wagertx.Constants.{FailureCode, is_no_code, requires_reference}
use jungle.Result.{Result, err, not_found}
use jungle.Store.Tables.{TransactionRow}
use jungle.Store.Action.{Action, lift, gets, call, ◌>>=◌, ◌>>◌}

-- `nullString`, `nullUUID`
abbrev pub null_string : String → Option String
null_string s = if str_eq s "" then none else some s

abbrev pub null_uuid : Uuid → Option Uuid
null_uuid id = if is_nil id then none else some id

abbrev pub null_code : FailureCode → Option FailureCode
null_code c = if is_no_code c then none else some c

-- `resultingBalanceArg`
abbrev pub resulting_balance_arg : WagerTransaction → Option ℤ
resulting_balance_arg t =
    if t.has_resulting_balance then some t.resulting_balance.minor_units else none

-- The values of `INSERT`; the columns of the retries have their defaults.
unfoldable pub row_of : Time → WagerTransaction → TransactionRow
row_of db_now t = record {
  id = t.id;
  wallet_id = t.wallet_id;
  player_id = t.player_id;
  kind = t.kind;
  status = t.status;
  amount_minor_units = t.money.minor_units;
  currency = t.money.currency;
  provider_id = null_string t.provider_id;
  external_transaction_id = null_string t.external_transaction_id;
  idempotency_key = null_string t.idempotency_key;
  payload_hash = null_string t.payload_hash;
  round_id = null_string t.round_id;
  game_id = null_string t.game_id;
  reference_external_transaction_id = null_string t.reference_external_tx_id;
  reference_transaction_id = null_uuid t.reference_transaction_id;
  failure_code = null_code t.failure_code;
  resulting_balance_minor_units = resulting_balance_arg t;
  created_at = t.created_at;
  updated_at = t.updated_at;
  reference_attempts = 0;
  reference_first_seen_at = db_now;
  reference_next_attempt_at = db_now;
}

-- `derefString`, and the other null columns of `toDomain`
abbrev pub deref_string : Option String → String
deref_string none = ""
deref_string (some s) = s

abbrev pub deref_uuid : Option Uuid → Uuid
deref_uuid none = nil_id
deref_uuid (some id) = id

abbrev pub deref_code : Option FailureCode → FailureCode
deref_code none = FailureCode.none
deref_code (some c) = c

abbrev pub deref_balance : Option ℤ → Currency → Money
deref_balance none cur = no_money
deref_balance (some n) cur = from_minor_units n cur

-- `toDomain`
unfoldable pub to_domain : TransactionRow → Result WagerTransaction
to_domain r = rehydrate (record {
  id = r.id;
  wallet_id = r.wallet_id;
  player_id = r.player_id;
  kind = r.kind;
  money = from_minor_units r.amount_minor_units r.currency;
  status = r.status;
  provider_id = deref_string r.provider_id;
  external_transaction_id = deref_string r.external_transaction_id;
  idempotency_key = deref_string r.idempotency_key;
  payload_hash = deref_string r.payload_hash;
  round_id = deref_string r.round_id;
  game_id = deref_string r.game_id;
  reference_external_transaction_id = deref_string r.reference_external_transaction_id;
  reference_transaction_id = deref_uuid r.reference_transaction_id;
  failure_code = deref_code r.failure_code;
  resulting_balance = deref_balance r.resulting_balance_minor_units r.currency;
  created_at = r.created_at;
  updated_at = r.updated_at;
})

-- `column = value` in SQL: a null column equals nothing.
abbrev pub column_is : Option String → String → Bool
column_is none s = false
column_is (some x) s = str_eq x s

abbrev pub uuid_column_is : Option Uuid → Uuid → Bool
uuid_column_is none id = false
uuid_column_is (some x) id = x == id

-- The first row that a query finds.
unfoldable pub find_first : (TransactionRow → Bool) → List TransactionRow → Option TransactionRow
find_first p [] = none
find_first p (r ∷ rows) = if p r then some r else find_first p rows

abbrev pub or_not_found : Option TransactionRow → Result WagerTransaction
or_not_found none = err not_found
or_not_found (some r) = to_domain r

-- `scanOne`
unfoldable pub scan_one : (TransactionRow → Bool) → Action WagerTransaction
scan_one p = do call; rows ← gets (λ db. db.transactions); lift (or_not_found (find_first p rows))

abbrev pub has_id : Uuid → TransactionRow → Bool
has_id id r = r.id == id

abbrev pub has_key : String → TransactionRow → Bool
has_key key r = column_is r.idempotency_key key

abbrev pub has_identity : String → String → TransactionRow → Bool
has_identity provider external r =
    column_is r.provider_id provider && column_is r.external_transaction_id external

-- `GetByID`, `GetByIdempotencyKey`, `GetByProviderExternalID`
abbrev pub get_by_id : Uuid → Action WagerTransaction
get_by_id id = scan_one (has_id id)

abbrev pub get_by_idempotency_key : String → Action WagerTransaction
get_by_idempotency_key key = scan_one (has_key key)

abbrev pub get_by_provider_external_id : String → String → Action WagerTransaction
get_by_provider_external_id provider external = scan_one (has_identity provider external)

-- The rows that `HasSuccessfulReversal` looks for.
abbrev pub is_reversal_of : Uuid → TransactionRow → Bool
is_reversal_of id r =
    uuid_column_is r.reference_transaction_id id
    && requires_reference r.kind
    && is_processed r.status

unfoldable pub has_row : (TransactionRow → Bool) → List TransactionRow → Bool
has_row p [] = false
has_row p (r ∷ rows) = p r || has_row p rows

-- `HasSuccessfulReversal`
unfoldable pub has_successful_reversal : Uuid → Action Bool
has_successful_reversal id = do call; gets (λ db. has_row (is_reversal_of id) db.transactions)
