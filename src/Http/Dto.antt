-- ===== src/Http/Dto.antt =====
-- internal/httpapi/dto.go: the bodies of requests and responses. UUIDs and times are printed by
-- other packages.
use jungle.Base.{ℕ, String, Bool, Option, none, some, str_eq, if◌then◌else◌, not}
use jungle.Values.{Uuid, Time}
use jungle.Int.{ℤ}
use jungle.Money.{Money, new_currency, parse_non_negative, decimal_string}
use jungle.Money.Decimal.{Text}
use jungle.Wallet.{Wallet}
use jungle.Wallet.Entry.{WalletLedgerEntry, LedgerDirection}
use jungle.Wagertx.{WagerTransaction, is_processed}
use jungle.Wagertx.Constants.{Kind, Status, FailureCode, kind_is_valid}
use jungle.Result.{Result, ok, ◌>>=◌, ◌>>◌, fail_if, invalid_kind}
use jungle.App.Queries.{ReconcileResult}

-- `uuid.Parse`, `UUID.String` and `Time.Format`
pub record Texts : Type 0 where
  pub parse_uuid : String → Option Uuid
  pub uuid_text : Uuid → String
  pub rfc3339 : Time → String

-- The texts of the constants of kind.go, status.go, failure_code.go and ledger_entry.go.
unfoldable pub kind_text : Kind → String
kind_text Kind.opening = "OPENING"
kind_text Kind.bet = "BET"
kind_text Kind.win = "WIN"
kind_text Kind.loss = "LOSS"
kind_text Kind.refund = "REFUND"
kind_text Kind.rollback = "ROLLBACK"
kind_text (Kind.other s) = s

-- The conversion `wagertx.Kind(raw)`
unfoldable pub kind_of : String → Kind
kind_of s =
    if str_eq s "OPENING"
    then Kind.opening
    else if str_eq s "BET"
    then Kind.bet
    else if str_eq s "WIN"
    then Kind.win
    else if str_eq s "LOSS"
    then Kind.loss
    else if str_eq s "REFUND"
    then Kind.refund
    else if str_eq s "ROLLBACK"
    then Kind.rollback
    else Kind.other s

unfoldable pub status_text : Status → String
status_text Status.pending = "PENDING"
status_text Status.pending_reference = "PENDING_REFERENCE"
status_text Status.processed = "PROCESSED"
status_text Status.rejected = "REJECTED"
status_text Status.failed = "FAILED"
status_text (Status.other s) = s

unfoldable pub failure_text : FailureCode → String
failure_text FailureCode.none = ""
failure_text FailureCode.insufficient_balance = "INSUFFICIENT_BALANCE"
failure_text FailureCode.insufficient_balance_for_reversal = "INSUFFICIENT_BALANCE_FOR_REVERSAL"
failure_text FailureCode.reference_not_found = "REFERENCE_NOT_FOUND"
failure_text FailureCode.reference_mismatch = "REFERENCE_MISMATCH"
failure_text FailureCode.reference_not_successful = "REFERENCE_NOT_SUCCESSFUL"
failure_text FailureCode.duplicate_reversal = "DUPLICATE_REVERSAL"
failure_text FailureCode.currency_mismatch = "CURRENCY_MISMATCH"
failure_text FailureCode.invalid_amount = "INVALID_AMOUNT"
failure_text FailureCode.infrastructure_failure = "INFRASTRUCTURE_FAILURE"
failure_text (FailureCode.other s) = s

unfoldable pub direction_text : LedgerDirection → String
direction_text LedgerDirection.debit = "DEBIT"
direction_text LedgerDirection.credit = "CREDIT"
direction_text (LedgerDirection.other s) = s

-- `moneyDTO`
pub record MoneyDto : Type 0 where
  pub amount : Text
  pub currency : String

-- `toMoney`
unfoldable pub to_money : MoneyDto → Result Money
to_money d = do currency ← new_currency d.currency; parse_non_negative d.amount currency

-- `moneyOut`
unfoldable pub money_out : Money → MoneyDto
money_out m = record { amount = decimal_string m; currency = m.currency }

-- `parseKind`
unfoldable pub parse_kind : String → Result Kind
parse_kind raw = do fail_if (not (kind_is_valid (kind_of raw))) invalid_kind; ok (kind_of raw)

-- `openWalletRequest`
pub record OpenWalletRequest : Type 0 where
  pub player_id : String
  pub initial_balance : MoneyDto

-- `submitTransactionRequest`
pub record SubmitTransactionRequest : Type 0 where
  pub provider_id : String
  pub external_transaction_id : String
  pub player_id : String
  pub wallet_id : String
  pub round_id : String
  pub game_id : String
  pub kind : String
  pub money : MoneyDto
  pub reference_external_transaction_id : String

-- `walletResponse`
pub record WalletResponse : Type 0 where
  pub id : String
  pub player_id : String
  pub balance : MoneyDto
  pub version : ℤ

-- `ledgerEntryResponse`
pub record LedgerEntryResponse : Type 0 where
  pub id : String
  pub wallet_id : String
  pub transaction_id : String
  pub direction : String
  pub money : MoneyDto
  pub balance_before : MoneyDto
  pub balance_after : MoneyDto
  pub created_at : String

-- `submitTransactionResponse`
pub record SubmitTransactionResponse : Type 0 where
  pub transaction_id : String
  pub status : String
  pub balance : Option MoneyDto
  pub failure_code : String
  pub idempotent_replay : Bool

-- `transactionResponse`
pub record TransactionResponse : Type 0 where
  pub transaction_id : String
  pub provider_id : String
  pub external_transaction_id : String
  pub wallet_id : String
  pub player_id : String
  pub round_id : String
  pub game_id : String
  pub kind : String
  pub status : String
  pub money : MoneyDto
  pub reference_external_transaction_id : String
  pub failure_code : String
  pub balance : Option MoneyDto
  pub created_at : String
  pub updated_at : String

-- `reconciliationResponse`
pub record ReconciliationResponse : Type 0 where
  pub wallet_id : String
  pub stored_balance : MoneyDto
  pub calculated_balance : MoneyDto
  pub difference : MoneyDto
  pub is_consistent : Bool
  pub checked_entries : ℕ

module _ (texts : Texts) where
  -- `walletOut`
  unfoldable pub wallet_out : Wallet → WalletResponse
  wallet_out w = record {
    id = texts.uuid_text w.id;
    player_id = texts.uuid_text w.player_id;
    balance = money_out w.balance;
    version = w.version;
  }

  -- The body of the loop of `GetLedger`.
  unfoldable pub entry_out : WalletLedgerEntry → LedgerEntryResponse
  entry_out e = record {
    id = texts.uuid_text e.id;
    wallet_id = texts.uuid_text e.wallet_id;
    transaction_id = texts.uuid_text e.transaction_id;
    direction = direction_text e.direction;
    money = money_out e.amount;
    balance_before = money_out e.balance_before;
    balance_after = money_out e.balance_after;
    created_at = texts.rfc3339 e.created_at;
  }

  -- `submitOut`
  unfoldable pub submit_out : WagerTransaction → Money → Bool → SubmitTransactionResponse
  submit_out t balance replay = record {
    transaction_id = texts.uuid_text t.id;
    status = status_text t.status;
    balance = if is_processed t.status then some (money_out balance) else none;
    failure_code = failure_text t.failure_code;
    idempotent_replay = replay;
  }

  -- `transactionOut`
  unfoldable pub transaction_out : WagerTransaction → TransactionResponse
  transaction_out t = record {
    transaction_id = texts.uuid_text t.id;
    provider_id = t.provider_id;
    external_transaction_id = t.external_transaction_id;
    wallet_id = texts.uuid_text t.wallet_id;
    player_id = texts.uuid_text t.player_id;
    round_id = t.round_id;
    game_id = t.game_id;
    kind = kind_text t.kind;
    status = status_text t.status;
    money = money_out t.money;
    reference_external_transaction_id = t.reference_external_tx_id;
    failure_code = failure_text t.failure_code;
    balance = if t.has_resulting_balance then some (money_out t.resulting_balance) else none;
    created_at = texts.rfc3339 t.created_at;
    updated_at = texts.rfc3339 t.updated_at;
  }

  -- The body of the response of `Reconcile`.
  unfoldable pub reconciliation_out : ReconcileResult → ReconciliationResponse
  reconciliation_out r = record {
    wallet_id = texts.uuid_text r.wallet_id;
    stored_balance = money_out r.stored_balance;
    calculated_balance = money_out r.calculated_balance;
    difference = money_out r.difference;
    is_consistent = r.is_consistent;
    checked_entries = r.checked_entries;
  }
