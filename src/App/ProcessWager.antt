-- ===== src/App/ProcessWager.antt =====
-- internal/app/process_wager.go: `ProcessWager.Execute`. Tracing is left out.
pub mod Reads
pub mod Branches
pub mod Reversals
pub mod Reconciles
pub mod Sums
pub mod Histories
pub mod Replay
pub mod Reversal
pub mod Reverses
use jungle.Base.{ℕ, String, Bool, true, false, not, Option, none, some, ◌==◌, str_eq, if◌then◌else◌}
use jungle.Values.{Uuid, Time}
use jungle.Money.{Money}
use jungle.Wallet.{Wallet}
use jungle.Event.{Meta}
use jungle.Wagertx.{WagerTransaction, NewExternalParams, new_external, is_terminal}
use jungle.Wagertx.Constants.{Kind}
use jungle.Result.{
  Result, ok, err, wallet_mismatch, idempotency_conflict, operation_identity_conflict,
}
use jungle.Store.Tables.{InboxRecord}
use jungle.Store.Action.{Action, World, pure, raise, lift, fail_if, within, ◌>>=◌, ◌>>◌}
use jungle.Store.Wallets.{get_wallet}
use jungle.Store.Transactions.{get_by_id, get_by_idempotency_key, get_by_provider_external_id}
use jungle.Store.TransactionWrites.{insert_transaction}
use jungle.Store.Logs.{get_inbox, insert_inbox}
use jungle.App.Decide.{decide, optional}
use jungle.App.Settle.{ProcessWagerResult, NewIds, settle}

-- `ProcessWagerCommand`
pub record ProcessWagerCommand : Type 0 where
  pub provider_id : String
  pub external_transaction_id : String
  pub idempotency_key : String
  pub payload_hash : String
  pub player_id : Uuid
  pub wallet_id : Uuid
  pub round_id : String
  pub game_id : String
  pub kind : Kind
  pub money : Money
  pub reference_external_transaction_id : String
  pub correlation_id : Uuid
  pub consumer_name : String
  pub message_id : String

-- `replayResult`
abbrev pub replay_result : WagerTransaction → ProcessWagerResult
replay_result t = record {
  transaction = t;
  balance = t.resulting_balance;
  idempotent_replay = true;
}

-- `cmd.MessageID != ""`
abbrev pub has_message : ProcessWagerCommand → Bool
has_message cmd = not (str_eq cmd.message_id "")

abbrev pub replay_found :
    ProcessWagerCommand → Option WagerTransaction → Action (Option ProcessWagerResult)
replay_found cmd none = pure none
replay_found cmd (some existing) = do
  fail_if (not (str_eq existing.payload_hash cmd.payload_hash)) idempotency_conflict
  pure (
      if not (is_terminal existing)
      then none
      else if has_message cmd
      then none
      else some (replay_result existing))

-- `fastReplay`
unfoldable pub fast_replay : ProcessWagerCommand → Action (Option ProcessWagerResult)
fast_replay cmd = do
  existing ← optional (get_by_idempotency_key cmd.idempotency_key)
  replay_found cmd existing

-- `recordInbox`
unfoldable pub record_inbox : ProcessWagerCommand → Uuid → Time → Action (Unit {0})
record_inbox cmd transaction_id now =
    if not (has_message cmd)
    then pure tt
    else insert_inbox (record {
      consumer_name = cmd.consumer_name;
      message_id = cmd.message_id;
      payload_hash = cmd.payload_hash;
      wager_transaction_id = transaction_id;
      received_at = now;
      completed_at = now;
    })

-- The parameters of `NewExternal`.
abbrev pub external_params : NewIds → Time → ProcessWagerCommand → NewExternalParams
external_params ids now cmd = record {
  id = ids.transaction_id;
  provider_id = cmd.provider_id;
  external_transaction_id = cmd.external_transaction_id;
  idempotency_key = cmd.idempotency_key;
  payload_hash = cmd.payload_hash;
  wallet_id = cmd.wallet_id;
  player_id = cmd.player_id;
  round_id = cmd.round_id;
  game_id = cmd.game_id;
  kind = cmd.kind;
  money = cmd.money;
  reference_external_transaction_id = cmd.reference_external_transaction_id;
  now = now;
}

-- The message's own record, where the command came from one.
abbrev pub message : ProcessWagerCommand → Action (Option InboxRecord)
message cmd = if has_message cmd then get_inbox cmd.consumer_name cmd.message_id else pure none

module _ (ids : NewIds) (now : Time) (cmd : ProcessWagerCommand) where
  abbrev pub meta_of : Meta
  meta_of = record { correlation_id = cmd.correlation_id; causation_id = none; occurred_at = now }

  -- A transaction that was recorded before is returned, and the message is noted.
  unfoldable pub replay : WagerTransaction → Action ProcessWagerResult
  replay existing = do record_inbox cmd existing.id now; pure (replay_result existing)

  -- The operation is new.
  unfoldable pub process_new : Wallet → Action ProcessWagerResult
  process_new w = do
    t ← lift (new_external (external_params ids now cmd))
    (t', d) ← decide t w
    outcome ← settle ids meta_of now insert_transaction t' w d
    record_inbox cmd outcome.transaction.id now
    pure outcome

  abbrev pub by_identity : Wallet → Option WagerTransaction → Action ProcessWagerResult
  by_identity w none = process_new w
  by_identity w (some existing) = do
    fail_if (not (str_eq existing.idempotency_key cmd.idempotency_key)) operation_identity_conflict
    replay existing

  abbrev pub by_key : Wallet → Option WagerTransaction → Action ProcessWagerResult
  by_key w none = do
    existing ← optional (get_by_provider_external_id cmd.provider_id cmd.external_transaction_id)
    by_identity w existing
  by_key w (some existing) = do
    fail_if (not (str_eq existing.payload_hash cmd.payload_hash)) idempotency_conflict
    replay existing

  abbrev pub by_message : Wallet → Option InboxRecord → Action ProcessWagerResult
  by_message w none = do
    existing ← optional (get_by_idempotency_key cmd.idempotency_key)
    by_key w existing
  by_message w (some rec) = do
    fail_if (not (str_eq rec.payload_hash cmd.payload_hash)) idempotency_conflict
    existing ← get_by_id rec.wager_transaction_id
    pure (replay_result existing)

  -- The function that `Execute` runs in the transaction.
  unfoldable pub process : Action ProcessWagerResult
  process = do
    w ← get_wallet cmd.wallet_id
    fail_if (not (w.player_id == cmd.player_id)) wallet_mismatch
    rec ← message cmd
    by_message w rec

  abbrev pub or_process : Option ProcessWagerResult → Action ProcessWagerResult
  or_process (some r) = pure r
  or_process none = within process

  -- `Execute`
  unfoldable pub execute : Action ProcessWagerResult
  execute = do found ← fast_replay cmd; or_process found
