-- ===== src/Examples/Executions.antt =====
-- internal/app/process_wager.go on concrete tables: a bet of 2.00 on a wallet with 5.00.
use jungle.Base.{
  List, none, ◌≡◌, refl, arith, true, false, some, [], ◌∷◌, Bool-cases, ==_iff, ◌==◌, inl, inr,
}
use jungle.Int.{ℤ, pos, ◌+ℤ◌, ◌-ℤ◌}
use jungle.Values.{Uuid}
use jungle.Int64.{IsInt64}
use jungle.Result.{ok, err, infrastructure}
use jungle.Money.{Money, from_minor_units}
use jungle.Wallet.{Wallet}
use jungle.Wallet.Entry.{LedgerDirection}
use jungle.Wagertx.{WagerTransaction, NewExternalParams, external_of}
use jungle.Wagertx.Constants.{Kind, Status}
use jungle.Store.Tables.{Db, WalletRow, LedgerRow}
use jungle.Store.Action.{World, within, begun}
use jungle.Store.Transactions
use jungle.Store.Transactions.{find_first, has_key, to_domain}
use jungle.Store.Wallets.{wallet_of, find_wallet}
use jungle.Store.Logs.{credits, debits}
use jungle.Store.TransactionWrites.{insert_transaction}
use jungle.Store.Reconciled.{AccountsAgree, IsReconciled}
use jungle.App.Decide.{Decision, decide, move}
use jungle.App.Settle.{ProcessWagerResult, NewIds, settle, book, apply_movement}
use jungle.App.ProcessWager.{
  ProcessWagerCommand, execute, replay_result, process, external_params, meta_of,
}
use jungle.Journal
use jungle.Journal.{platform_funding, wallet_account, entries_of, account_eq}
use jungle.Store.Select.{keep}
use jungle.Store.Journals.{net, global_imbalance, account_balance}
use jungle.App.ProcessWager.Sums.{sums-execute}
use jungle.App.ProcessWager.Reconciles.{execute-IsReconciled, execute-err}

abbrev pub ids : NewIds
ids = record {
  transaction_id = 20;
  entry_id = 21;
  debit_id = 22;
  credit_id = 23;
  event_id = 24;
  changed_id = 25;
}

abbrev pub bet : ProcessWagerCommand
bet = record {
  provider_id = "acme";
  external_transaction_id = "t-1";
  idempotency_key = "k-1";
  payload_hash = "h-1";
  player_id = 2;
  wallet_id = 1;
  round_id = "r-1";
  game_id = "g-1";
  kind = Kind.bet;
  money = from_minor_units (pos 200) "BRL";
  reference_external_transaction_id = "";
  correlation_id = 30;
  consumer_name = "";
  message_id = "";
}

abbrev pub row : WalletRow
row = record {
  id = 1;
  player_id = 2;
  currency = "BRL";
  balance_minor_units = pos 500;
  version = pos 1;
  created_at = 9;
  updated_at = 9;
}

-- The entry of the opening balance.
abbrev funding : LedgerRow
funding = record {
  id = 10;
  wallet_id = 1;
  transaction_id = 11;
  direction = LedgerDirection.credit;
  amount_minor_units = pos 500;
  balance_before_minor_units = pos 0;
  balance_after_minor_units = pos 500;
  created_at = 9;
}

-- The movement that funded the wallet.
abbrev funding_entries : List Journal.Entry
funding_entries = entries_of 12 13 (record {
  transaction_id = 11;
  from = platform_funding;
  to = wallet_account 1;
  amount = from_minor_units (pos 500) "BRL";
  now = 9;
})

abbrev pub tables : Db
tables = record {
  wallets = row ∷ [];
  transactions = [];
  ledger = funding ∷ [];
  inbox = [];
  outbox = [];
  journal = funding_entries;
}

abbrev pub world : World
world = record { db = tables; db_now = 50; faults = [] }

tables_balances :
    (id : Uuid) (r : WalletRow)
    → find_wallet id tables.wallets ≡ some r
    → IsInt64 r.balance_minor_units
      × (r.balance_minor_units ≡ credits id tables.ledger -ℤ debits id tables.ledger)
unfolding find_wallet credits debits ◌+ℤ◌ ◌-ℤ◌
tables_balances id r h = elim (Bool-cases (1 == id)) [
  | inl same ↦
      let i = (==_iff 1 id).0 same in
      let found : some row ≡ some r = rw (← i) at h in rw (← i) (ground (arith, found))
  | inr other ↦ absurd (ground (arith, other))
]

tables_strays :
    (id : Uuid)
    → find_wallet id tables.wallets ≡ none
    → (credits id tables.ledger ≡ pos 0) × (debits id tables.ledger ≡ pos 0)
unfolding find_wallet credits debits ◌+ℤ◌ ◌-ℤ◌
tables_strays id h = elim (Bool-cases (1 == id)) [
  | inl same ↦ absurd (ground (arith, same))
  | inr other ↦ ground (arith, other)
]

tables_accounts : AccountsAgree tables.journal tables.ledger
unfolding credits debits ◌+ℤ◌ ◌-ℤ◌ net keep account_eq
tables_accounts id = elim (Bool-cases (1 == id)) [
  | inl same ↦ rw same refl
  | inr other ↦ rw other refl
]

pub tables-IsReconciled : IsReconciled tables
unfolding net ◌+ℤ◌ ◌-ℤ◌
tables-IsReconciled = (tables_balances, tables_strays, tt, refl, tables_accounts)

-- The same, but the database fails at the eighth call, when the new balance is written and its
-- ledger entry is not.
abbrev broken : World
broken = record world { faults = false ∷ false ∷ false ∷ false ∷ false ∷ false ∷ false ∷ true ∷ [] }

abbrev pub done : WagerTransaction
done = record (external_of (external_params ids 60 bet)) {
  status = Status.processed;
  resulting_balance = from_minor_units (pos 300) "BRL";
  has_resulting_balance = true;
  updated_at = 60;
}

abbrev pub answer : ProcessWagerResult
answer = record {
  transaction = done;
  balance = from_minor_units (pos 300) "BRL";
  idempotent_replay = false;
}

execute-bet : execute ids 60 bet world ≡ (ok answer, (execute ids 60 bet world).1)
unfolding jungle.Store.Action.◌>>=◌ jungle.Store.Action.call jungle.Store.Action.within
    jungle.Store.Wallets.find_wallet jungle.Store.Wallets.get_wallet
    jungle.Store.Wallets.update_balance jungle.Store.Wallets.replace_wallet
    jungle.Store.Transactions.find_first jungle.Store.Transactions.scan_one
    jungle.Store.Transactions.has_row jungle.Store.Transactions.row_of
    jungle.Store.Transactions.has_successful_reversal jungle.Store.Transactions.to_domain
    jungle.Store.TransactionWrites.row_checks jungle.Store.TransactionWrites.insert_row
    jungle.Store.TransactionWrites.insert_transaction jungle.Store.Logs.insert_ledger
    jungle.Store.Logs.ledger_checks jungle.Store.Logs.has_collision jungle.Store.Logs.insert_journal
    jungle.Store.Logs.journal_checks jungle.Store.Logs.has_entry jungle.Store.Logs.insert_outbox
    jungle.Store.Logs.has_event jungle.Wagertx.Constants.is_valid_external
    jungle.Wagertx.Constants.kind_is_valid jungle.Wagertx.Constants.requires_reference
    jungle.Wagertx.Constants.allows_reference jungle.Wagertx.Constants.allowed
    jungle.Wagertx.Constants.status_is_valid jungle.Wagertx.Constants.status_is_terminal
    jungle.Wagertx.Constants.is_no_code jungle.Wagertx.bad_amount jungle.Wagertx.new_external
    jungle.Wagertx.transition_to jungle.Wagertx.mark_processed jungle.Wagertx.mark_rejected
    jungle.App.ProcessWager.fast_replay jungle.App.ProcessWager.record_inbox
    jungle.App.ProcessWager.replay jungle.App.ProcessWager.process_new
    jungle.App.ProcessWager.process jungle.App.ProcessWager.execute jungle.App.Settle.apply_movement
    jungle.App.Settle.record_double_entry jungle.App.Settle.reject jungle.App.Settle.book
    jungle.App.Settle.settle jungle.App.Decide.decide jungle.Event.new_envelope
    jungle.Event.new_processed jungle.Event.new_rejected jungle.Event.new_balance_changed
    jungle.Journal.account_eq jungle.Journal.new_movement jungle.Journal.signed_minor_units
    jungle.Journal.balance_from jungle.Journal.balance jungle.Journal.assert_balanced
    jungle.Wallet.Entry.apply_direction jungle.Wallet.Entry.new_ledger_entry
    jungle.Wallet.rehydrate_wallet jungle.Wallet.debit jungle.Int.◌+ℤ◌ jungle.Int.◌-ℤ◌
    jungle.Int64.wrap64 jungle.Int64.add64 jungle.Int64.neg64 jungle.Money.sub
    jungle.Money.Overflow.add_int64 jungle.Money.Overflow.negate_int64
    jungle.Money.Overflow.sub_int64
execute-bet = refl

execute-IsReconciled_example : IsReconciled (execute ids 60 bet world).1.db
execute-IsReconciled_example =
    execute-IsReconciled ids 60 bet (omega arith) world answer (execute ids 60 bet world).1
      tables-IsReconciled execute-bet

-- The tables after the execution, in a database that does not fail.
abbrev later : World
later = record (execute ids 60 bet world).1 { faults = [] }

sums-execute_example :
    (global_imbalance later ≡ (ok (pos 0), later))
    × ((id : Uuid) (r : WalletRow)
        → find_wallet id later.db.wallets ≡ some r
        → account_balance (wallet_account id) later ≡ (ok r.balance_minor_units, later))
sums-execute_example =
    sums-execute ids 60 bet world answer (execute ids 60 bet world).1 later (omega arith)
      tables-IsReconciled execute-bet refl refl

abbrev pub after : World
after = record world { db = record tables { transactions = Transactions.row_of 50 done ∷ [] } }

execute-broken : execute ids 60 bet broken ≡ (err infrastructure, (execute ids 60 bet broken).1)
unfolding jungle.Store.Action.◌>>=◌ jungle.Store.Action.call jungle.Store.Action.within
    jungle.Store.Wallets.find_wallet jungle.Store.Wallets.get_wallet
    jungle.Store.Wallets.update_balance jungle.Store.Wallets.replace_wallet
    jungle.Store.Transactions.find_first jungle.Store.Transactions.scan_one
    jungle.Store.Transactions.has_row jungle.Store.Transactions.row_of
    jungle.Store.Transactions.has_successful_reversal jungle.Store.Transactions.to_domain
    jungle.Store.TransactionWrites.row_checks jungle.Store.TransactionWrites.insert_row
    jungle.Store.TransactionWrites.insert_transaction jungle.Store.Logs.insert_ledger
    jungle.Store.Logs.ledger_checks jungle.Store.Logs.has_collision jungle.Store.Logs.insert_journal
    jungle.Store.Logs.journal_checks jungle.Store.Logs.has_entry jungle.Store.Logs.insert_outbox
    jungle.Store.Logs.has_event jungle.Wagertx.Constants.is_valid_external
    jungle.Wagertx.Constants.kind_is_valid jungle.Wagertx.Constants.requires_reference
    jungle.Wagertx.Constants.allows_reference jungle.Wagertx.Constants.allowed
    jungle.Wagertx.Constants.status_is_valid jungle.Wagertx.Constants.status_is_terminal
    jungle.Wagertx.Constants.is_no_code jungle.Wagertx.bad_amount jungle.Wagertx.new_external
    jungle.Wagertx.transition_to jungle.Wagertx.mark_processed jungle.Wagertx.mark_rejected
    jungle.App.ProcessWager.fast_replay jungle.App.ProcessWager.record_inbox
    jungle.App.ProcessWager.replay jungle.App.ProcessWager.process_new
    jungle.App.ProcessWager.process jungle.App.ProcessWager.execute jungle.App.Settle.apply_movement
    jungle.App.Settle.record_double_entry jungle.App.Settle.reject jungle.App.Settle.book
    jungle.App.Settle.settle jungle.App.Decide.decide jungle.Event.new_envelope
    jungle.Event.new_processed jungle.Event.new_rejected jungle.Event.new_balance_changed
    jungle.Journal.account_eq jungle.Journal.new_movement jungle.Journal.signed_minor_units
    jungle.Journal.balance_from jungle.Journal.balance jungle.Journal.assert_balanced
    jungle.Wallet.Entry.apply_direction jungle.Wallet.Entry.new_ledger_entry
    jungle.Wallet.rehydrate_wallet jungle.Wallet.debit jungle.Int.◌+ℤ◌ jungle.Int.◌-ℤ◌
    jungle.Int64.wrap64 jungle.Int64.add64 jungle.Int64.neg64 jungle.Money.sub
    jungle.Money.Overflow.add_int64 jungle.Money.Overflow.negate_int64
    jungle.Money.Overflow.sub_int64
execute-broken = refl

execute-err_example : (execute ids 60 bet broken).1.db ≡ tables
execute-err_example =
    execute-err ids 60 bet broken infrastructure (execute ids 60 bet broken).1 execute-broken
