-- ===== src/App/Settle.antt =====
-- internal/app/process_wager.go: `settle`, which carries a decision out, and its helpers.
pub mod Booking
pub mod Accounts
pub mod Histories
pub mod Reconciles
pub mod Reversals
use jungle.Base.{
  ℕ, String, Bool, true, false, not, Option, none, some, List, [], ◌∷◌, if◌then◌else◌,
}
use jungle.Values.{Uuid, Time}
use jungle.Int.{ℤ}
use jungle.Money.{Money}
use jungle.Wallet
use jungle.Wallet.{Wallet}
use jungle.Wallet.Entry.{WalletLedgerEntry, LedgerDirection, debit, credit, new_ledger_entry}
use jungle.Journal
use jungle.Journal.{Account, wallet_account, provider_account, new_movement, assert_balanced}
use jungle.Event.{Meta, new_processed, new_rejected, new_pending_reference, new_balance_changed}
use jungle.Wagertx.{WagerTransaction, mark_processed, mark_rejected, mark_pending_reference}
use jungle.Wagertx.Constants.{FailureCode, requires_reference}
use jungle.Result.{Error, Result, ok, err, insufficient_balance, invalid_direction}
use jungle.Store.Action.{Action, World, pure, raise, lift, ◌>>=◌, ◌>>◌}
use jungle.Store.Wallets.{update_balance}
use jungle.Store.Logs.{insert_ledger, insert_journal, insert_outbox}
use jungle.App.Decide.{Decision, DecisionKind}

-- `ProcessWagerResult`
pub record ProcessWagerResult : Type 0 where
  pub transaction : WagerTransaction
  pub balance : Money
  pub idempotent_replay : Bool

abbrev pub result_of : WagerTransaction → Money → ProcessWagerResult
result_of t balance = record { transaction = t; balance = balance; idempotent_replay = false }

-- The values of `uuid.New()` in one run: of the transaction, the ledger entry, the two journal
-- entries and the two events.
pub record NewIds : Type 0 where
  pub transaction_id : Uuid
  pub entry_id : Uuid
  pub debit_id : Uuid
  pub credit_id : Uuid
  pub event_id : Uuid
  pub changed_id : Uuid

-- `saveFunc`
abbrev pub Save : Type 0
Save = WagerTransaction → Action (Unit {0})

-- `applyMovement`
unfoldable pub apply_movement : Wallet → LedgerDirection → Money → Time → Result Wallet
apply_movement w debit amount now = Wallet.debit w amount now
apply_movement w credit amount now = Wallet.credit w amount now
apply_movement w (LedgerDirection.other s) amount now = err invalid_direction

abbrev is_debit : LedgerDirection → Bool
is_debit debit = true
is_debit _ = false

-- The movement that `recordDoubleEntry` builds.
abbrev pub movement_of : WagerTransaction → LedgerDirection → Time → Journal.MovementParams
movement_of t direction now = record {
  transaction_id = t.id;
  from = if is_debit direction then wallet_account t.wallet_id else provider_account t.provider_id;
  to = if is_debit direction then provider_account t.provider_id else wallet_account t.wallet_id;
  amount = t.money;
  now = now;
}

-- `recordDoubleEntry`
unfoldable pub record_double_entry :
    NewIds → WagerTransaction → LedgerDirection → Time → Action (Unit {0})
record_double_entry ids t direction now = do
  entries ← lift (new_movement ids.debit_id ids.credit_id (movement_of t direction now))
  lift (assert_balanced entries)
  insert_journal entries

module _ (ids : NewIds) (m : Meta) (now : Time) (save : Save) where
  -- `reject`
  unfoldable pub reject : WagerTransaction → Wallet → FailureCode → Action ProcessWagerResult
  reject t w code = do
    t' ← lift (mark_rejected code now t)
    save t'
    event ← lift (new_rejected ids.event_id t' m)
    insert_outbox (event ∷ [])
    pure (result_of t' w.balance)

  -- `case decisionPendingReference`
  unfoldable pub park : WagerTransaction → Wallet → Action ProcessWagerResult
  park t w = do
    t' ← lift (mark_pending_reference now t)
    save t'
    event ← lift (new_pending_reference ids.event_id t' m)
    insert_outbox (event ∷ [])
    pure (result_of t' w.balance)

  -- `case decisionProcess` without funds to move
  unfoldable pub note : WagerTransaction → Wallet → Action ProcessWagerResult
  note t w = do
    t' ← lift (mark_processed w.balance now t)
    save t'
    event ← lift (new_processed ids.event_id t' w.balance m)
    insert_outbox (event ∷ [])
    pure (result_of t' w.balance)

  abbrev pub entry_params :
      WagerTransaction → Wallet → Wallet → LedgerDirection → Wallet.Entry.NewEntryParams
  entry_params t w w' direction = record {
    id = ids.entry_id;
    wallet_id = w'.id;
    transaction_id = t.id;
    direction = direction;
    amount = t.money;
    balance_before = w.balance;
    now = now;
  }

  -- The rest of `case decisionProcess`, once `applyMovement` has made `w'` of `w`.
  unfoldable pub book :
      WagerTransaction → Wallet → Wallet → LedgerDirection → Action ProcessWagerResult
  book t w w' direction = do
    t' ← lift (mark_processed w'.balance now t)
    save t'
    update_balance w' w.version
    entry ← lift (new_ledger_entry (entry_params t' w w' direction))
    insert_ledger entry
    record_double_entry ids t' direction now
    processed ← lift (new_processed ids.event_id t' w'.balance m)
    changed ← lift (
        new_balance_changed ids.changed_id entry w'.version
          (record m { causation_id = some t'.id }))
    insert_outbox (processed ∷ changed ∷ [])
    pure (result_of t' w'.balance)

  -- `errors.Is(err, wallet.ErrInsufficientBalance)`
  abbrev is_insufficient : Error → Bool
  is_insufficient insufficient_balance = true
  is_insufficient _ = false

  abbrev shortage : WagerTransaction → FailureCode
  shortage t =
      if requires_reference t.kind
      then FailureCode.insufficient_balance_for_reversal
      else FailureCode.insufficient_balance

  abbrev pub move_funds :
      WagerTransaction → Wallet → LedgerDirection → Result Wallet → Action ProcessWagerResult
  move_funds t w direction (ok w') = book t w w' direction
  move_funds t w direction (err e) = if is_insufficient e then reject t w (shortage t) else raise e

  abbrev pub settle_kind :
      WagerTransaction → Wallet → Decision → DecisionKind → Action ProcessWagerResult
  settle_kind t w d DecisionKind.pending_reference = park t w
  settle_kind t w d DecisionKind.reject = reject t w d.failure
  settle_kind t w d DecisionKind.process =
      if d.moves_funds
      then move_funds t w d.direction (apply_movement w d.direction t.money now)
      else note t w

  -- `settle`; a decision has no kind but the three.
  unfoldable pub settle : WagerTransaction → Wallet → Decision → Action ProcessWagerResult
  settle t w d = settle_kind t w d d.kind
