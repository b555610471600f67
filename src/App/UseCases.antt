-- ===== src/App/UseCases.antt =====
-- internal/app: the two use cases that requests and messages run, as their callers rely on them: on
-- int64 amounts each keeps a relation between the tables, whether it succeeds or fails.
use jungle.Base.{Option, none, some}
use jungle.Values.{Time}
use jungle.Result.{ok}
use jungle.Money.Arithmetic.{IsMoney}
use jungle.Store.Action.Histories.{History, Keeps, Keeps-read, Keeps-lift, Keeps-bind}
use jungle.App.Settle.{NewIds, ProcessWagerResult}
use jungle.App.OpenWallet.{OpeningIds, OpenWalletCommand, open_wallet}
use jungle.App.ProcessWager.{ProcessWagerCommand, execute, fast_replay, or_process}
use jungle.App.ProcessWager.Branches.{fast_replay-db}
use jungle.App.Transactions.{Transactions}

pub record UseCases (H : History) : Type 0 where
  pub opens :
      (ids : OpeningIds) (now : Time) (cmd : OpenWalletCommand)
      → IsMoney cmd.initial_balance
      → Keeps H (open_wallet ids now cmd)
  pub executes :
      (ids : NewIds) (now : Time) (cmd : ProcessWagerCommand)
      → IsMoney cmd.money
      → Keeps H (execute ids now cmd)

module _ {H : History} (parts : Transactions H) where
  module _ (ids : NewIds) (now : Time) (cmd : ProcessWagerCommand) (money : IsMoney cmd.money) where
    or_process-Keeps : (o : Option ProcessWagerResult) → Keeps H (or_process ids now cmd o)
    or_process-Keeps (some r) = Keeps-lift (ok r)
    or_process-Keeps none = parts.processed ids now cmd money

    execute-Keeps : Keeps H (execute ids now cmd)
    unfolding execute
    execute-Keeps =
        Keeps-bind (fast_replay cmd) (or_process ids now cmd)
          (Keeps-read (fast_replay cmd) (fast_replay-db cmd)) or_process-Keeps

  -- What the transactions keep, the use cases keep.
  pub use_cases : UseCases H
  unfolding open_wallet
  use_cases = record { opens = parts.opened; executes = execute-Keeps }
