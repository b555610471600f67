-- ===== src/Examples/References.antt =====
-- internal/app/resolve_references.go on concrete tables: a refund that awaits its bet.
use jungle.Base.{◌≡◌, ◌⊎◌, ◌≤◌, ℕ, refl, arith, [], ◌∷◌, none, some, true, false}
use jungle.Int.{ℤ, pos, ◌≤ℤ◌}
use jungle.Result.{Error, ok, err}
use jungle.Money.{from_minor_units}
use jungle.Wagertx.{WagerTransaction}
use jungle.Wagertx.Constants.{Kind, Status, FailureCode}
use jungle.Store.Tables.{TransactionRow}
use jungle.Store.Action.{World, within}
use jungle.Store.Reconciled.{IsReconciled}
use jungle.Store.References.{PendingReferenceRecord}
use jungle.App.Backoff.{backoff_for}
use jungle.App.Backoff.Bounds.{backoff_for-bounds}
use jungle.App.ResolveReferences.{Turn, default_reference_policy, settle_one, run_once, claim}
use jungle.App.ResolveReferences.Run.{run_once-IsReconciled}
use jungle.App.ResolveReferences.Count.{run_once-bounded}
use jungle.App.ResolveReferences.Settled.{IsSettled}
use jungle.App.ResolveReferences.Exhausted.{settle_one-exhausted}
use jungle.Examples.Executions.{ids, tables, tables-IsReconciled}

abbrev waiting : TransactionRow
waiting = record {
  id = 40;
  wallet_id = 1;
  player_id = 2;
  kind = Kind.refund;
  status = Status.pending_reference;
  amount_minor_units = pos 200;
  currency = "BRL";
  provider_id = some "acme";
  external_transaction_id = some "t-2";
  idempotency_key = some "k-2";
  payload_hash = some "h-2";
  round_id = some "r-1";
  game_id = some "g-1";
  reference_external_transaction_id = some "t-1";
  reference_transaction_id = none;
  failure_code = none;
  resulting_balance_minor_units = none;
  created_at = 10;
  updated_at = 10;
  reference_attempts = 9;
  reference_first_seen_at = 10;
  reference_next_attempt_at = 10;
}

abbrev refund : WagerTransaction
refund = record {
  id = 40;
  wallet_id = 1;
  player_id = 2;
  kind = Kind.refund;
  money = from_minor_units (pos 200) "BRL";
  status = Status.pending_reference;
  provider_id = "acme";
  external_transaction_id = "t-2";
  idempotency_key = "k-2";
  payload_hash = "h-2";
  round_id = "r-1";
  game_id = "g-1";
  reference_external_tx_id = "t-1";
  reference_transaction_id = 0;
  failure_code = FailureCode.none;
  resulting_balance = jungle.Wagertx.no_money;
  has_resulting_balance = false;
  created_at = 10;
  updated_at = 10;
}

abbrev waiting_world : World
waiting_world = record {
  db = record tables { transactions = waiting ∷ [] };
  db_now = 50;
  faults = [];
}

waiting-IsReconciled : IsReconciled waiting_world.db
unfolding jungle.Store.Journals.net
waiting-IsReconciled = (
  tables-IsReconciled.0,
  tables-IsReconciled.1,
  (omega arith, tt),
  tables-IsReconciled.3,
  tables-IsReconciled.4,
)

abbrev turn : Turn
turn = record {
  now = 60;
  correlation_id = 41;
  ids = ids;
  is_cancelled = false;
  failed_at = 61;
  failed_correlation_id = 42;
  failed_event_id = 43;
}

abbrev last_try : PendingReferenceRecord
last_try = record { transaction = refund; attempts = 9; first_seen_at = 10 }

run_once-IsReconciled_example :
    IsReconciled (run_once default_reference_policy (λ i. turn) 60 waiting_world).1.db
run_once-IsReconciled_example =
    run_once-IsReconciled default_reference_policy (λ i. turn) 60 waiting_world waiting-IsReconciled

run_once-bounded_example :
    ((e : Error) × ((run_once default_reference_policy (λ i. turn) 60 waiting_world).0 ≡ err e)
      × ((within (claim default_reference_policy (λ i. turn) 60) waiting_world).0 ≡ err e))
    ⊎ ((n : ℕ) × ((run_once default_reference_policy (λ i. turn) 60 waiting_world).0 ≡ ok n)
        × (n ≤ 50))
run_once-bounded_example = run_once-bounded default_reference_policy (λ i. turn) 60 waiting_world

settle_one-last :
    settle_one default_reference_policy turn last_try waiting_world
    ≡ (ok true, (settle_one default_reference_policy turn last_try waiting_world).1)
unfolding jungle.Store.Action.◌>>=◌ jungle.Store.Action.call jungle.Store.Action.within
    jungle.Store.Wallets.find_wallet jungle.Store.Wallets.get_wallet
    jungle.Store.Wallets.update_balance jungle.Store.Wallets.replace_wallet
    jungle.Store.Transactions.find_first jungle.Store.Transactions.scan_one
    jungle.Store.Transactions.has_row jungle.Store.Transactions.row_of
    jungle.Store.Transactions.has_successful_reversal jungle.Store.Transactions.to_domain
    jungle.Store.TransactionWrites.row_checks jungle.Store.TransactionWrites.insert_row
    jungle.Store.TransactionWrites.insert_transaction jungle.Store.Logs.insert_ledger
    jungle.Store.Logs.ledger_checks jungle.Store.Logs.has_collision jungle.Store.Logs.insert_journal
    jungle.Store.Logs.journal_checks jungle.Store.Logs.has_entry jungle.Store.Logs.insert_outbox
    jungle.Store.Logs.has_event jungle.Wagertx.Constants.is_valid_external
    jungle.Wagertx.Constants.kind_is_valid jungle.Wagertx.Constants.requires_reference
    jungle.Wagertx.Constants.allows_reference jungle.Wagertx.Constants.allowed
    jungle.Wagertx.Constants.status_is_valid jungle.Wagertx.Constants.status_is_terminal
    jungle.Wagertx.Constants.is_no_code jungle.Wagertx.bad_amount jungle.Wagertx.new_external
    jungle.Wagertx.transition_to jungle.Wagertx.mark_processed jungle.Wagertx.mark_rejected
    jungle.App.ProcessWager.fast_replay jungle.App.ProcessWager.record_inbox
    jungle.App.ProcessWager.replay jungle.App.ProcessWager.process_new
    jungle.App.ProcessWager.process jungle.App.ProcessWager.execute jungle.App.Settle.apply_movement
    jungle.App.Settle.record_double_entry jungle.App.Settle.reject jungle.App.Settle.book
    jungle.App.Settle.settle jungle.App.Decide.decide jungle.Event.new_envelope
    jungle.Event.new_processed jungle.Event.new_rejected jungle.Event.new_balance_changed
    jungle.Journal.account_eq jungle.Journal.new_movement jungle.Journal.signed_minor_units
    jungle.Journal.balance_from jungle.Journal.balance jungle.Journal.assert_balanced
    jungle.Wallet.Entry.apply_direction jungle.Wallet.Entry.new_ledger_entry
    jungle.Wallet.rehydrate_wallet jungle.Wallet.debit jungle.Int.◌+ℤ◌ jungle.Int.◌-ℤ◌
    jungle.Int64.wrap64 jungle.Int64.add64 jungle.Int64.neg64 jungle.Money.sub
    jungle.Money.Overflow.add_int64 jungle.Money.Overflow.negate_int64
    jungle.Money.Overflow.sub_int64 jungle.App.ResolveReferences.settle_one
    jungle.App.ResolveReferences.settle_awaiting jungle.App.Decide.decide_reversal
    jungle.Store.TransactionWrites.update_transaction jungle.Store.TransactionWrites.replace_row
    jungle.Wagertx.rehydrate
settle_one-last = refl

settle_one-exhausted_example :
    (true ≡ true)
    × IsSettled 40 (settle_one default_reference_policy turn last_try waiting_world).1.db
unfolding jungle.Store.Transactions.find_first
settle_one-exhausted_example =
    settle_one-exhausted default_reference_policy turn last_try waiting_world true
      (settle_one default_reference_policy turn last_try waiting_world).1 refl (waiting, refl, refl)
      settle_one-last

backoff_for-bounds_example :
    (pos 1 ≤ℤ backoff_for (pos 2000000000) (pos 60000000000) (pos 7))
    × (backoff_for (pos 2000000000) (pos 60000000000) (pos 7) ≤ℤ pos 60000000000)
backoff_for-bounds_example =
    backoff_for-bounds (pos 2000000000) (pos 60000000000) (pos 7) (omega arith)
