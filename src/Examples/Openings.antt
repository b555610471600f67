-- ===== src/Examples/Openings.antt =====
-- internal/app/open_wallet.go and queries.go on concrete tables: a wallet opened with 5.00.
use jungle.Base.{◌≡◌, refl, arith, [], true}
use jungle.Int.{pos}
use jungle.Result.{ok}
use jungle.Money.{from_minor_units}
use jungle.Wallet.{Wallet}
use jungle.Store.Tables.{Db}
use jungle.Store.Action.{World}
use jungle.Store.Reconciled.{IsReconciled}
use jungle.Store.Wallets.{find_wallet, wallet_of}
use jungle.Store.Logs.{credits, debits}
use jungle.App.OpenWallet.{OpenWalletCommand, OpeningIds, open_wallet}
use jungle.App.OpenWallet.Opens.{Opens, open_wallet-Opens}
use jungle.App.Identity.{Identity}
use jungle.App.Queries.{reconcile}
use jungle.App.Queries.Reconciliation.{reconcile-IsReconciled}
use jungle.Examples.Executions.{row, world, tables-IsReconciled}

abbrev no_tables : Db
no_tables = record {
  wallets = [];
  transactions = [];
  ledger = [];
  inbox = [];
  outbox = [];
  journal = [];
}

no_tables-IsReconciled : IsReconciled no_tables
unfolding find_wallet credits debits jungle.Store.Journals.net jungle.Store.Select.keep
    jungle.Int.◌-ℤ◌
no_tables-IsReconciled =
    (λ id r h. absurd (ground (arith, h)), λ id h. (refl, refl), tt, refl, λ id. refl)

abbrev new_world : World
new_world = record { db = no_tables; db_now = 50; faults = [] }

abbrev pub opening_ids : OpeningIds
opening_ids = record {
  wallet_id = 1;
  transaction_id = 2;
  entry_id = 3;
  debit_id = 4;
  credit_id = 5;
  event_id = 6;
  changed_id = 7;
}

abbrev command : OpenWalletCommand
command = record {
  player_id = 8;
  initial_balance = from_minor_units (pos 500) "BRL";
  correlation_id = 9;
}

abbrev opened_wallet : Wallet
opened_wallet = record {
  id = 1;
  player_id = 8;
  currency = "BRL";
  balance = from_minor_units (pos 500) "BRL";
  version = pos 1;
  created_at = 60;
  updated_at = 60;
}

open_wallet-command :
    open_wallet opening_ids 60 command new_world
    ≡ (ok opened_wallet, (open_wallet opening_ids 60 command new_world).1)
unfolding jungle.Store.Action.◌>>=◌ jungle.Store.Action.call jungle.Store.Action.within
    jungle.Store.Wallets.find_wallet jungle.Store.Wallets.get_wallet
    jungle.Store.Wallets.update_balance jungle.Store.Wallets.replace_wallet
    jungle.Store.Transactions.find_first jungle.Store.Transactions.scan_one
    jungle.Store.Transactions.has_row jungle.Store.Transactions.row_of
    jungle.Store.Transactions.has_successful_reversal jungle.Store.Transactions.to_domain
    jungle.Store.TransactionWrites.row_checks jungle.Store.TransactionWrites.insert_row
    jungle.Store.TransactionWrites.insert_transaction jungle.Store.Logs.insert_ledger
    jungle.Store.Logs.ledger_checks jungle.Store.Logs.has_collision jungle.Store.Logs.insert_journal
    jungle.Store.Logs.journal_checks jungle.Store.Logs.has_entry jungle.Store.Logs.insert_outbox
    jungle.Store.Logs.has_event jungle.Wagertx.Constants.is_valid_external
    jungle.Wagertx.Constants.kind_is_valid jungle.Wagertx.Constants.requires_reference
    jungle.Wagertx.Constants.allows_reference jungle.Wagertx.Constants.allowed
    jungle.Wagertx.Constants.status_is_valid jungle.Wagertx.Constants.status_is_terminal
    jungle.Wagertx.Constants.is_no_code jungle.Wagertx.bad_amount jungle.Wagertx.new_external
    jungle.Wagertx.transition_to jungle.Wagertx.mark_processed jungle.Wagertx.mark_rejected
    jungle.App.ProcessWager.fast_replay jungle.App.ProcessWager.record_inbox
    jungle.App.ProcessWager.replay jungle.App.ProcessWager.process_new
    jungle.App.ProcessWager.process jungle.App.ProcessWager.execute jungle.App.Settle.apply_movement
    jungle.App.Settle.record_double_entry jungle.App.Settle.reject jungle.App.Settle.book
    jungle.App.Settle.settle jungle.App.Decide.decide jungle.Event.new_envelope
    jungle.Event.new_processed jungle.Event.new_rejected jungle.Event.new_balance_changed
    jungle.Journal.account_eq jungle.Journal.new_movement jungle.Journal.signed_minor_units
    jungle.Journal.balance_from jungle.Journal.balance jungle.Journal.assert_balanced
    jungle.Wallet.Entry.apply_direction jungle.Wallet.Entry.new_ledger_entry
    jungle.Wallet.rehydrate_wallet jungle.Wallet.debit jungle.Int.◌+ℤ◌ jungle.Int.◌-ℤ◌
    jungle.Int64.wrap64 jungle.Int64.add64 jungle.Int64.neg64 jungle.Money.sub
    jungle.Money.Overflow.add_int64 jungle.Money.Overflow.negate_int64
    jungle.Money.Overflow.sub_int64 jungle.App.OpenWallet.open_wallet jungle.App.OpenWallet.open_new
    jungle.App.OpenWallet.opening_credit jungle.App.OpenWallet.record_opening_credit
    jungle.Wallet.new_wallet jungle.Store.Wallets.insert_wallet
    jungle.Store.Wallets.has_player_currency jungle.Store.Wallets.exists_for_player_currency
    jungle.Wagertx.new_opening jungle.Money.add
open_wallet-command = refl

open_wallet-Opens_example :
    Opens opening_ids 60 command opened_wallet new_world.db
      (open_wallet opening_ids 60 command new_world).1.db
open_wallet-Opens_example =
    open_wallet-Opens opening_ids 60 command new_world opened_wallet
      (open_wallet opening_ids 60 command new_world).1 no_tables-IsReconciled (omega arith)
      open_wallet-command

abbrev service : Identity
service = record { provider_id = ""; is_internal = true }

reconcile-IsReconciled_example : reconcile service 1 world ≡ (
  ok (record {
    wallet_id = 1;
    stored_balance = from_minor_units (pos 500) "BRL";
    calculated_balance = from_minor_units (pos 500) "BRL";
    difference = from_minor_units (pos 0) "BRL";
    is_consistent = true;
    checked_entries = 1;
  }),
  world,
)
unfolding find_wallet credits debits jungle.Store.Logs.entries jungle.Wallet.rehydrate_wallet
    jungle.Int.◌+ℤ◌
reconcile-IsReconciled_example =
    reconcile-IsReconciled service 1 world row (wallet_of row) refl tables-IsReconciled refl refl
      refl refl
