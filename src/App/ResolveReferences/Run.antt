-- ===== src/App/ResolveReferences/Run.antt =====
-- internal/app/resolve_references.go: a whole run keeps every stored balance equal to the ledger's
-- totals.
use jungle.Base.{ℕ}
use jungle.Values.{Time}
use jungle.Store.Action.{World}
use jungle.Store.Reconciled.{IsReconciled}
use jungle.App.ResolveReferences.{ReferencePolicy, Turn, run_once}
use jungle.App.Transactions.Reconciles.{reconciliation-Transactions}
use jungle.App.Transactions.Resolver.{run_once-Keeps}

module _ (policy : ReferencePolicy) (turns : ℕ → Turn) where
  -- However a run over the transactions that await their reference ends, and whichever of its
  -- records fail, it leaves reconciled tables reconciled.
  pub run_once-IsReconciled :
      (now : Time) (s : World) → IsReconciled s.db → IsReconciled (run_once policy turns now s).1.db
  run_once-IsReconciled now s inv =
      (run_once-Keeps reconciliation-Transactions policy turns now).at s inv
