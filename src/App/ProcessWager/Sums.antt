-- ===== src/App/ProcessWager/Sums.antt =====
-- internal/app/process_wager.go and internal/postgres/journal_repo.go: the sums of the journal after
-- an execution.
use jungle.Base.{◌≡◌, ◌∙◌, sym, refl, [], some, true, arith}
use jungle.Values.{Uuid, Time}
use jungle.Int.{ℤ, pos}
use jungle.Int64.{IsInt64}
use jungle.Journal.{wallet_account}
use jungle.Money.Arithmetic.{IsMoney}
use jungle.Result.{ok}
use jungle.Store.Action.{World, ◌>>=◌}
use jungle.Store.Action.Laws.{call-quiet}
use jungle.Store.Journals.{net, global_imbalance, account_balance}
use jungle.Store.Journals.Accounts.{wallet_net}
use jungle.Store.Logs.{is_int64}
use jungle.Store.Tables.{WalletRow}
use jungle.Store.Wallets.{find_wallet}
use jungle.Store.Reconciled.{IsReconciled}
use jungle.App.Settle.{ProcessWagerResult, NewIds}
use jungle.App.ProcessWager.{ProcessWagerCommand, execute}
use jungle.App.ProcessWager.Reconciles.{execute-IsReconciled}

global_imbalance-zero :
    (s : World) → s.faults ≡ [] → net s.db.journal ≡ pos 0 → global_imbalance s ≡ (ok (pos 0), s)
unfolding global_imbalance ◌>>=◌
global_imbalance-zero s quiet even = rw (call-quiet s quiet, even) refl

is_int64-fits : (n : ℤ) → IsInt64 n → is_int64 n ≡ true
is_int64-fits n h = ground arith

account_balance-net :
    (id : Uuid) (s : World) (n : ℤ)
    → s.faults ≡ []
    → wallet_net id s.db.journal ≡ n
    → IsInt64 n
    → account_balance (wallet_account id) s ≡ (ok n, s)
unfolding account_balance ◌>>=◌
account_balance-net id s n quiet sum fits = rw (call-quiet s quiet, sum, is_int64-fits n fits) refl

-- After a command whose amount is an int64 was executed with success on reconciled tables, and where
-- the database does not fail, `GlobalImbalance` on the tables that it left answers zero, and
-- `AccountBalance` for the account of a stored wallet answers the balance of its row. Neither writes.
pub sums-execute :
    (ids : NewIds) (now : Time) (cmd : ProcessWagerCommand) (s : World) (r : ProcessWagerResult)
    (s' later : World)
    → IsMoney cmd.money
    → IsReconciled s.db
    → execute ids now cmd s ≡ (ok r, s')
    → later.db ≡ s'.db
    → later.faults ≡ []
    → (global_imbalance later ≡ (ok (pos 0), later))
      × ((id : Uuid) (row : WalletRow)
          → find_wallet id later.db.wallets ≡ some row
          → account_balance (wallet_account id) later ≡ (ok row.balance_minor_units, later))
sums-execute ids now cmd s r s' later money inv h same quiet =
    let after : IsReconciled later.db =
      rw same (execute-IsReconciled ids now cmd money s r s' inv h) in
    (
      global_imbalance-zero later quiet after.3,
      λ id row found.
          let (fits, sum) = after.0 id row found in
          account_balance-net id later row.balance_minor_units quiet (after.4 id ∙ sym sum) fits,
    )
