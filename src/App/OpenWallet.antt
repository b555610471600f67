-- ===== src/App/OpenWallet.antt =====
-- internal/app/open_wallet.go: `OpenWallet.Execute`.
pub mod Opened
pub mod Opens
pub mod Histories
pub mod Reversals
use jungle.Base.{Bool, true, false, some, none, [], ◌∷◌, if◌then◌else◌}
use jungle.Values.{Uuid, Time}
use jungle.Money.{Money, Currency, is_zero, zero_of}
use jungle.Wallet
use jungle.Wallet.{Wallet, NewWalletParams, new_wallet}
use jungle.Wallet.Entry.{LedgerDirection, NewEntryParams, new_ledger_entry}
use jungle.Journal
use jungle.Journal.{platform_funding, wallet_account, new_movement}
use jungle.Event.{Meta, new_processed, new_balance_changed}
use jungle.Wagertx.{WagerTransaction, NewOpeningParams, new_opening}
use jungle.Result.{Result, ok, err, wallet_already_exists}
use jungle.Store.Action.{Action, World, pure, lift, fail_if, within, ◌>>=◌, ◌>>◌}
use jungle.Store.Wallets.{exists_for_player_currency, insert_wallet}
use jungle.Store.TransactionWrites.{insert_transaction}
use jungle.Store.Logs.{insert_ledger, insert_journal, insert_outbox}

-- `OpenWalletCommand`
pub record OpenWalletCommand : Type 0 where
  pub player_id : Uuid
  pub initial_balance : Money
  pub correlation_id : Uuid

-- The values of `uuid.New()` in one run.
pub record OpeningIds : Type 0 where
  pub wallet_id : Uuid
  pub transaction_id : Uuid
  pub entry_id : Uuid
  pub debit_id : Uuid
  pub credit_id : Uuid
  pub event_id : Uuid
  pub changed_id : Uuid

module _ (ids : OpeningIds) (now : Time) where
  -- The parameters of `NewWallet`.
  abbrev pub wallet_params : OpenWalletCommand → NewWalletParams
  wallet_params cmd = record {
    id = ids.wallet_id;
    player_id = cmd.player_id;
    currency = cmd.initial_balance.currency;
    initial_balance = cmd.initial_balance;
    now = now;
  }

  -- The parameters of `NewOpening`.
  abbrev pub opening_params : Wallet → NewOpeningParams
  opening_params w = record {
    id = ids.transaction_id;
    wallet_id = w.id;
    player_id = w.player_id;
    money = w.balance;
    now = now;
  }

  -- The parameters of `NewWalletLedgerEntry`.
  abbrev pub opening_entry : WagerTransaction → Wallet → NewEntryParams
  opening_entry t w = record {
    id = ids.entry_id;
    wallet_id = w.id;
    transaction_id = t.id;
    direction = LedgerDirection.credit;
    amount = w.balance;
    balance_before = zero_of w.currency;
    now = now;
  }

  -- The movement that funds the wallet.
  abbrev pub funding : WagerTransaction → Wallet → Journal.MovementParams
  funding t w = record {
    transaction_id = t.id;
    from = platform_funding;
    to = wallet_account w.id;
    amount = w.balance;
    now = now;
  }

  -- `recordOpeningCredit`
  unfoldable pub record_opening_credit : Wallet → Uuid → Action (Unit {0})
  record_opening_credit w correlation_id = do
    t ← lift (new_opening (opening_params w))
    insert_transaction t
    entry ← lift (new_ledger_entry (opening_entry t w))
    insert_ledger entry
    movement ← lift (new_movement ids.debit_id ids.credit_id (funding t w))
    insert_journal movement
    let m : Meta = record {
      correlation_id = correlation_id;
      causation_id = none;
      occurred_at = now;
    }
    processed ← lift (new_processed ids.event_id t w.balance m)
    changed ←
        lift (
          new_balance_changed ids.changed_id entry w.version
            (record m { causation_id = some t.id }))
    insert_outbox (processed ∷ changed ∷ [])

  -- A wallet that opens with nothing has no opening transaction.
  abbrev pub opening_credit : OpenWalletCommand → Wallet → Action (Unit {0})
  opening_credit cmd w =
      if is_zero cmd.initial_balance then pure tt else record_opening_credit w cmd.correlation_id

  -- The function that `Execute` runs in the transaction, which returns `created`.
  unfoldable pub open_new : OpenWalletCommand → Action Wallet
  open_new cmd = do
    exists ← exists_for_player_currency cmd.player_id cmd.initial_balance.currency
    fail_if exists wallet_already_exists
    w ← lift (new_wallet (wallet_params cmd))
    insert_wallet w
    opening_credit cmd w
    pure w

  -- `Execute`; `OpenWalletResult` has the wallet as its only field.
  unfoldable pub open_wallet : OpenWalletCommand → Action Wallet
  open_wallet cmd = within (open_new cmd)
