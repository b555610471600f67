-- ===== src/Event.antt =====
-- internal/domain/event/event.go: the integration events. The texts that `uuid.String()` and
-- `Time.Format` make are modelled by what they are made of; the encoding to JSON is not modelled.
use jungle.Base.{ℕ, String, Bool, false, Option, str_eq}
use jungle.Values.{Uuid, Time, is_nil, is_zero_time}
use jungle.Int.{ℤ}
use jungle.Money.{Money}
use jungle.Wagertx.{WagerTransaction}
use jungle.Wagertx.Constants.{Kind, FailureCode}
use jungle.Wallet.Entry.{WalletLedgerEntry, LedgerDirection}
use jungle.Result.{Result, ok, ◌>>◌, fail_if, invalid_event}

-- A text that names an aggregate: that of a UUID, or another.
pub data IdText : Type 0 where
  text_of : Uuid → IdText
  other : String → IdText

abbrev is_no_text : IdText → Bool
is_no_text (text_of id) = false
is_no_text (other s) = str_eq s ""

-- `type Type string`
pub data EventType : Type 0 where
  transaction_processed transaction_rejected : EventType
  transaction_pending_reference balance_changed : EventType

-- `WagerTransactionProcessedData`
pub record ProcessedData : Type 0 where
  pub transaction_id : IdText
  pub wallet_id : IdText
  pub player_id : IdText
  pub provider_id : String
  pub external_transaction_id : String
  pub round_id : String
  pub game_id : String
  pub kind : Kind
  pub money : Money
  pub balance : Money
  pub processed_at : Time

-- `WagerTransactionRejectedData`
pub record RejectedData : Type 0 where
  pub transaction_id : IdText
  pub wallet_id : IdText
  pub player_id : IdText
  pub provider_id : String
  pub external_transaction_id : String
  pub round_id : String
  pub game_id : String
  pub kind : Kind
  pub money : Money
  pub failure_code : FailureCode
  pub rejected_at : Time

-- `WagerTransactionPendingReferenceData`
pub record PendingReferenceData : Type 0 where
  pub transaction_id : IdText
  pub wallet_id : IdText
  pub player_id : IdText
  pub provider_id : String
  pub external_transaction_id : String
  pub reference_external_transaction_id : String
  pub kind : Kind
  pub money : Money
  pub pending_since : Time

-- `WalletBalanceChangedData`
pub record BalanceChangedData : Type 0 where
  pub wallet_id : IdText
  pub transaction_id : IdText
  pub direction : LedgerDirection
  pub money : Money
  pub balance_before : Money
  pub balance_after : Money
  pub wallet_version : ℤ
  pub changed_at : Time

-- The implementations of `Payload`.
pub data Payload : Type 0 where
  processed_data : ProcessedData → Payload
  rejected_data : RejectedData → Payload
  pending_reference_data : PendingReferenceData → Payload
  balance_changed_data : BalanceChangedData → Payload

-- The methods `Type`.
abbrev pub payload_type : Payload → EventType
payload_type (processed_data d) = transaction_processed
payload_type (rejected_data d) = transaction_rejected
payload_type (pending_reference_data d) = transaction_pending_reference
payload_type (balance_changed_data d) = balance_changed

-- `Envelope`
pub record Envelope : Type 0 where
  pub event_id : Uuid
  pub event_type : EventType
  pub aggregate_id : IdText
  pub correlation_id : Uuid
  pub causation_id : Option Uuid
  pub occurred_at : Time
  pub version : ℕ
  pub payload : Payload

-- `Meta`
pub record Meta : Type 0 where
  pub correlation_id : Uuid
  pub causation_id : Option Uuid
  pub occurred_at : Time

-- `currentVersion`
abbrev current_version : ℕ
current_version = 1

-- `newEnvelope`; `event_id` is its `uuid.New()`.
unfoldable pub new_envelope : Uuid → IdText → Payload → Meta → Result Envelope
new_envelope event_id aggregate_id payload m = do
  fail_if (is_no_text aggregate_id) invalid_event
  fail_if (is_nil m.correlation_id) invalid_event
  fail_if (is_zero_time m.occurred_at) invalid_event
  ok (record {
    event_id = event_id;
    event_type = payload_type payload;
    aggregate_id = aggregate_id;
    correlation_id = m.correlation_id;
    causation_id = m.causation_id;
    occurred_at = m.occurred_at;
    version = current_version;
    payload = payload;
  })

-- `NewWagerTransactionProcessed`
unfoldable pub new_processed : Uuid → WagerTransaction → Money → Meta → Result Envelope
new_processed event_id tx balance m =
    new_envelope event_id (text_of tx.id)
      (processed_data (record {
        transaction_id = text_of tx.id;
        wallet_id = text_of tx.wallet_id;
        player_id = text_of tx.player_id;
        provider_id = tx.provider_id;
        external_transaction_id = tx.external_transaction_id;
        round_id = tx.round_id;
        game_id = tx.game_id;
        kind = tx.kind;
        money = tx.money;
        balance = balance;
        processed_at = tx.updated_at;
      }))
      m

-- `NewWagerTransactionRejected`
unfoldable pub new_rejected : Uuid → WagerTransaction → Meta → Result Envelope
new_rejected event_id tx m =
    new_envelope event_id (text_of tx.id)
      (rejected_data (record {
        transaction_id = text_of tx.id;
        wallet_id = text_of tx.wallet_id;
        player_id = text_of tx.player_id;
        provider_id = tx.provider_id;
        external_transaction_id = tx.external_transaction_id;
        round_id = tx.round_id;
        game_id = tx.game_id;
        kind = tx.kind;
        money = tx.money;
        failure_code = tx.failure_code;
        rejected_at = tx.updated_at;
      }))
      m

-- `NewWagerTransactionPendingReference`
unfoldable pub new_pending_reference : Uuid → WagerTransaction → Meta → Result Envelope
new_pending_reference event_id tx m =
    new_envelope event_id (text_of tx.id)
      (pending_reference_data (record {
        transaction_id = text_of tx.id;
        wallet_id = text_of tx.wallet_id;
        player_id = text_of tx.player_id;
        provider_id = tx.provider_id;
        external_transaction_id = tx.external_transaction_id;
        reference_external_transaction_id = tx.reference_external_tx_id;
        kind = tx.kind;
        money = tx.money;
        pending_since = tx.updated_at;
      }))
      m

-- `NewWalletBalanceChanged`
unfoldable pub new_balance_changed : Uuid → WalletLedgerEntry → ℤ → Meta → Result Envelope
new_balance_changed event_id entry wallet_version m =
    new_envelope event_id (text_of entry.wallet_id)
      (balance_changed_data (record {
        wallet_id = text_of entry.wallet_id;
        transaction_id = text_of entry.transaction_id;
        direction = entry.direction;
        money = entry.amount;
        balance_before = entry.balance_before;
        balance_after = entry.balance_after;
        wallet_version = wallet_version;
        changed_at = entry.created_at;
      }))
      m
