-- ===== src/Examples/Reversals.antt =====
-- internal/app/process_wager.go: the refund of a stored bet.
use jungle.Base.{◌≡◌, refl, some, false}
use jungle.Result.{ok}
use jungle.Store.Action.{World}
use jungle.Wallet.Entry.{LedgerDirection}
use jungle.Wagertx.{WagerTransaction}
use jungle.Wagertx.Constants.{Kind, Status}
use jungle.Store.Tables.{TransactionRow}
use jungle.Store.Transactions.{find_first, has_identity, to_domain}
use jungle.App.Decide.{decide_reversal, move, optional, find_reference}
use jungle.App.ProcessWager.Reverses.{Reverses, decide_reversal-Reverses}
use jungle.Examples.Executions.{after, done}

abbrev refund : WagerTransaction
refund = record done {
  id = 40;
  kind = Kind.refund;
  status = Status.pending;
  reference_external_tx_id = "t-1";
  has_resulting_balance = false;
}

abbrev resolved : WagerTransaction
resolved = record refund { reference_transaction_id = 20 }

decide_reversal-refund :
    decide_reversal refund after ≡ (ok (resolved, move LedgerDirection.credit), after)
unfolding decide_reversal jungle.Store.Action.◌>>=◌ jungle.Store.Transactions.scan_one
    jungle.Store.Action.call jungle.Store.Transactions.find_first jungle.Store.Transactions.row_of
    jungle.Store.Transactions.to_domain jungle.Wagertx.rehydrate jungle.Money.equal
    jungle.App.Decide.reversal_direction jungle.Store.Transactions.has_successful_reversal
    jungle.Store.Transactions.has_row jungle.Wagertx.resolve_reference
    jungle.Wagertx.Constants.status_is_terminal
decide_reversal-refund = refl

decide_reversal-Reverses_example :
    (row : TransactionRow) × (ref : WagerTransaction) × (find_first
        (has_identity refund.provider_id refund.reference_external_tx_id)
        after.db.transactions
      ≡ some row)
    × (to_domain row ≡ ok ref)
    × Reverses refund ref resolved (move LedgerDirection.credit) after
decide_reversal-Reverses_example =
    decide_reversal-Reverses refund after resolved (move LedgerDirection.credit) after
      decide_reversal-refund refl
