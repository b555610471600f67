-- ===== src/Examples/Settlements.antt =====
-- internal/app/process_wager.go: the steps of an execution on the tables of Executions.
use jungle.Base.{◌≡◌, refl, arith}
use jungle.Int.{ℤ, pos, ◌+ℤ◌, ◌-ℤ◌}
use jungle.Result.{ok}
use jungle.Money.{Money, from_minor_units}
use jungle.Wallet.{Wallet}
use jungle.Wallet.Entry.{LedgerDirection}
use jungle.Wagertx.{WagerTransaction, NewExternalParams, external_of}
use jungle.Wagertx.Constants.{Kind, Status}
use jungle.Store.Action.{World, within, begun}
use jungle.Store.Transactions
use jungle.Store.Transactions.{find_first, has_key, to_domain}
use jungle.Store.Wallets.{wallet_of, find_wallet}
use jungle.Store.Logs.{credits, debits}
use jungle.Store.TransactionWrites.{insert_transaction}
use jungle.Store.Reconciled.{IsReconciled}
use jungle.App.Decide.{Decision, decide, move}
use jungle.App.Settle.{ProcessWagerResult, NewIds, settle, book, apply_movement}
use jungle.App.Settle.Reconciles.{IsStored, settle-IsReconciled}
use jungle.App.ProcessWager.{
  ProcessWagerCommand, execute, replay_result, process, external_params, meta_of,
}
use jungle.App.ProcessWager.Reconciles.{insert_transaction-SavesTransaction}
use jungle.Examples.Executions.{ids, bet, row, tables, world, answer, tables-IsReconciled}

abbrev opened : WagerTransaction
opened = external_of (external_params ids 60 bet)

abbrev held : Wallet
held = wallet_of row

abbrev spent : Wallet
spent = record held { balance = from_minor_units (pos 300) "BRL"; version = pos 2; updated_at = 60 }

abbrev settled : World
settled =
    (settle ids (meta_of ids 60 bet) 60 insert_transaction opened held (move LedgerDirection.debit)
      world).1

settle-opened :
    settle ids
      (meta_of ids 60 bet)
      60
      insert_transaction
      opened
      held
      (move LedgerDirection.debit)
      world
    ≡ (ok answer, settled)
unfolding jungle.Store.Action.◌>>=◌ jungle.Store.Action.call jungle.Store.Action.within
    jungle.Store.Wallets.find_wallet jungle.Store.Wallets.get_wallet
    jungle.Store.Wallets.update_balance jungle.Store.Wallets.replace_wallet
    jungle.Store.Transactions.find_first jungle.Store.Transactions.scan_one
    jungle.Store.Transactions.has_row jungle.Store.Transactions.row_of
    jungle.Store.Transactions.has_successful_reversal jungle.Store.Transactions.to_domain
    jungle.Store.TransactionWrites.row_checks jungle.Store.TransactionWrites.insert_row
    jungle.Store.TransactionWrites.insert_transaction jungle.Store.Logs.insert_ledger
    jungle.Store.Logs.ledger_checks jungle.Store.Logs.has_collision jungle.Store.Logs.insert_journal
    jungle.Store.Logs.journal_checks jungle.Store.Logs.has_entry jungle.Store.Logs.insert_outbox
    jungle.Store.Logs.has_event jungle.Wagertx.Constants.is_valid_external
    jungle.Wagertx.Constants.kind_is_valid jungle.Wagertx.Constants.requires_reference
    jungle.Wagertx.Constants.allows_reference jungle.Wagertx.Constants.allowed
    jungle.Wagertx.Constants.status_is_valid jungle.Wagertx.Constants.status_is_terminal
    jungle.Wagertx.Constants.is_no_code jungle.Wagertx.bad_amount jungle.Wagertx.new_external
    jungle.Wagertx.transition_to jungle.Wagertx.mark_processed jungle.Wagertx.mark_rejected
    jungle.App.ProcessWager.fast_replay jungle.App.ProcessWager.record_inbox
    jungle.App.ProcessWager.replay jungle.App.ProcessWager.process_new
    jungle.App.ProcessWager.process jungle.App.ProcessWager.execute jungle.App.Settle.apply_movement
    jungle.App.Settle.record_double_entry jungle.App.Settle.reject jungle.App.Settle.book
    jungle.App.Settle.settle jungle.App.Decide.decide jungle.Event.new_envelope
    jungle.Event.new_processed jungle.Event.new_rejected jungle.Event.new_balance_changed
    jungle.Journal.account_eq jungle.Journal.new_movement jungle.Journal.signed_minor_units
    jungle.Journal.balance_from jungle.Journal.balance jungle.Journal.assert_balanced
    jungle.Wallet.Entry.apply_direction jungle.Wallet.Entry.new_ledger_entry
    jungle.Wallet.rehydrate_wallet jungle.Wallet.debit jungle.Int.◌+ℤ◌ jungle.Int.◌-ℤ◌
    jungle.Int64.wrap64 jungle.Int64.add64 jungle.Int64.neg64 jungle.Money.sub
    jungle.Money.Overflow.add_int64 jungle.Money.Overflow.negate_int64
    jungle.Money.Overflow.sub_int64
settle-opened = refl

held-IsStored : IsStored opened.wallet_id held tables
unfolding find_wallet
held-IsStored = (row, refl, refl, refl)

settle-IsReconciled_example : IsReconciled settled.db
settle-IsReconciled_example =
    settle-IsReconciled ids (meta_of ids 60 bet) 60 insert_transaction
      insert_transaction-SavesTransaction opened held (move LedgerDirection.debit) world answer
      settled tables-IsReconciled held-IsStored (omega arith) settle-opened

abbrev booked : World
booked =
    (book ids (meta_of ids 60 bet) 60 insert_transaction opened held spent LedgerDirection.debit
      world).1

decide-opened : decide opened held world ≡ (ok (opened, move LedgerDirection.debit), world)
unfolding decide
decide-opened = refl

abbrev processed : World
processed = (within (process ids 60 bet) world).1

within-bet : within (process ids 60 bet) world ≡ (ok answer, processed)
unfolding jungle.Store.Action.◌>>=◌ jungle.Store.Action.call jungle.Store.Action.within
    jungle.Store.Wallets.find_wallet jungle.Store.Wallets.get_wallet
    jungle.Store.Wallets.update_balance jungle.Store.Wallets.replace_wallet
    jungle.Store.Transactions.find_first jungle.Store.Transactions.scan_one
    jungle.Store.Transactions.has_row jungle.Store.Transactions.row_of
    jungle.Store.Transactions.has_successful_reversal jungle.Store.Transactions.to_domain
    jungle.Store.TransactionWrites.row_checks jungle.Store.TransactionWrites.insert_row
    jungle.Store.TransactionWrites.insert_transaction jungle.Store.Logs.insert_ledger
    jungle.Store.Logs.ledger_checks jungle.Store.Logs.has_collision jungle.Store.Logs.insert_journal
    jungle.Store.Logs.journal_checks jungle.Store.Logs.has_entry jungle.Store.Logs.insert_outbox
    jungle.Store.Logs.has_event jungle.Wagertx.Constants.is_valid_external
    jungle.Wagertx.Constants.kind_is_valid jungle.Wagertx.Constants.requires_reference
    jungle.Wagertx.Constants.allows_reference jungle.Wagertx.Constants.allowed
    jungle.Wagertx.Constants.status_is_valid jungle.Wagertx.Constants.status_is_terminal
    jungle.Wagertx.Constants.is_no_code jungle.Wagertx.bad_amount jungle.Wagertx.new_external
    jungle.Wagertx.transition_to jungle.Wagertx.mark_processed jungle.Wagertx.mark_rejected
    jungle.App.ProcessWager.fast_replay jungle.App.ProcessWager.record_inbox
    jungle.App.ProcessWager.replay jungle.App.ProcessWager.process_new
    jungle.App.ProcessWager.process jungle.App.ProcessWager.execute jungle.App.Settle.apply_movement
    jungle.App.Settle.record_double_entry jungle.App.Settle.reject jungle.App.Settle.book
    jungle.App.Settle.settle jungle.App.Decide.decide jungle.Event.new_envelope
    jungle.Event.new_processed jungle.Event.new_rejected jungle.Event.new_balance_changed
    jungle.Journal.account_eq jungle.Journal.new_movement jungle.Journal.signed_minor_units
    jungle.Journal.balance_from jungle.Journal.balance jungle.Journal.assert_balanced
    jungle.Wallet.Entry.apply_direction jungle.Wallet.Entry.new_ledger_entry
    jungle.Wallet.rehydrate_wallet jungle.Wallet.debit jungle.Int.◌+ℤ◌ jungle.Int.◌-ℤ◌
    jungle.Int64.wrap64 jungle.Int64.add64 jungle.Int64.neg64 jungle.Money.sub
    jungle.Money.Overflow.add_int64 jungle.Money.Overflow.negate_int64
    jungle.Money.Overflow.sub_int64
within-bet = refl
