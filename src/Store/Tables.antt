-- ===== src/Store/Tables.antt =====
-- The tables of migrations/ as the repositories of internal/postgres read and write them. A table
-- is the list of its rows, newest last; a nullable column is an option.
use jungle.Base.{ℕ, String, List, Option}
use jungle.Values.{Uuid, Time}
use jungle.Int.{ℤ}
use jungle.Money.{Currency}
use jungle.Wagertx.Constants.{Kind, Status, FailureCode}
use jungle.Wallet.Entry.{LedgerDirection}
use jungle.Journal
use jungle.Event.{Envelope}

-- 000001: `wallet`
pub record WalletRow : Type 0 where
  pub id : Uuid
  pub player_id : Uuid
  pub currency : Currency
  pub balance_minor_units : ℤ
  pub version : ℤ
  pub created_at : Time
  pub updated_at : Time

-- 000002: `wager_transaction`; the columns of `transactionRow`, and those of the retries.
pub record TransactionRow : Type 0 where
  pub id : Uuid
  pub wallet_id : Uuid
  pub player_id : Uuid
  pub kind : Kind
  pub status : Status
  pub amount_minor_units : ℤ
  pub currency : Currency
  pub provider_id : Option String
  pub external_transaction_id : Option String
  pub idempotency_key : Option String
  pub payload_hash : Option String
  pub round_id : Option String
  pub game_id : Option String
  pub reference_external_transaction_id : Option String
  pub reference_transaction_id : Option Uuid
  pub failure_code : Option FailureCode
  pub resulting_balance_minor_units : Option ℤ
  pub created_at : Time
  pub updated_at : Time
  pub reference_attempts : ℕ
  pub reference_first_seen_at : Time
  pub reference_next_attempt_at : Time

-- 000003: `wallet_ledger_entry`
pub record LedgerRow : Type 0 where
  pub id : Uuid
  pub wallet_id : Uuid
  pub transaction_id : Uuid
  pub direction : LedgerDirection
  pub amount_minor_units : ℤ
  pub balance_before_minor_units : ℤ
  pub balance_after_minor_units : ℤ
  pub created_at : Time

-- 000004: `inbox`, the struct `InboxRecord` of internal/app/ports.go
pub record InboxRecord : Type 0 where
  pub consumer_name : String
  pub message_id : String
  pub payload_hash : String
  pub wager_transaction_id : Uuid
  pub received_at : Time
  pub completed_at : Time

-- 000005: `outbox`; the payload column is the event.
pub record OutboxRow : Type 0 where
  pub event : Envelope
  pub attempts : ℕ
  pub next_attempt_at : Time
  pub published_at : Option Time
  pub locked_by : Option String
  pub locked_until : Option Time

pub record Db : Type 0 where
  pub wallets : List WalletRow
  pub transactions : List TransactionRow
  pub ledger : List LedgerRow
  pub inbox : List InboxRecord
  pub outbox : List OutboxRow
  pub journal : List Journal.Entry
