-- ===== src/App/Transactions/Reconciles.antt =====
-- internal/app: reconciled tables stay reconciled in every transaction.
use jungle.Store.Action.Laws.{within-keeps}
use jungle.Store.Action.Histories.{History, Keeps-within}
use jungle.Store.Reconciled.{IsReconciled}
use jungle.Store.Statements.{OutboxWrites}
use jungle.Store.Statements.Outbox.{OutboxWrites-of}
use jungle.App.OpenWallet.{open_new}
use jungle.App.OpenWallet.Opens.{open_new-Opens}
use jungle.App.ProcessWager.{process}
use jungle.App.ProcessWager.Reconciles.{process-IsReconciled}
use jungle.App.ResolveReferences.{claim}
use jungle.App.ResolveReferences.Histories.{claim-Keeps}
use jungle.App.ResolveReferences.Reconciles.{settle_one-IsReconciled, fail_body-IsReconciled}
use jungle.App.PublishOutbox.{claim_batch, note_outcome}
use jungle.App.PublishOutbox.Histories.{claim_batch-Keeps, note_outcome-Keeps}
use jungle.App.Transactions.{Transactions}

-- Reconciled tables lead to such tables.
abbrev pub reconciliation : History
reconciliation = record {
  Leads = λ a b. IsReconciled a → IsReconciled b;
  stay = λ db h. h;
  join = λ a b c f g h. g (f h);
}

reconciliation-OutboxWrites : OutboxWrites reconciliation
reconciliation-OutboxWrites = OutboxWrites-of λ db rows h. h

pub reconciliation-Transactions : Transactions reconciliation
reconciliation-Transactions = record {
  opened = λ ids now cmd money. record {
    at = λ s inv.
        within-keeps IsReconciled (open_new ids now cmd) s inv
          λ s₁ w s₂ inv₁ ran. (open_new-Opens ids now cmd s₁ w s₂ inv₁ money ran).reconciled;
  };
  processed = λ ids now cmd money. record {
    at = λ s inv.
        within-keeps IsReconciled (process ids now cmd) s inv
          λ s₁ r s₂ inv₁ ran. process-IsReconciled ids now cmd money s₁ r s₂ inv₁ ran;
  };
  due = λ policy turns now. Keeps-within (claim policy turns now) (claim-Keeps policy turns now);
  tried = λ policy turn rec. record { at = settle_one-IsReconciled policy turn rec };
  abandoned = λ policy turn rec. record { at = fail_body-IsReconciled policy turn rec };
  claimed = λ owner policy sur pass.
      Keeps-within (claim_batch owner policy sur pass)
        (claim_batch-Keeps reconciliation-OutboxWrites owner policy sur pass);
  noted = λ owner policy sur pass i rec.
      Keeps-within (note_outcome owner policy sur pass i rec)
        (note_outcome-Keeps reconciliation-OutboxWrites owner policy sur pass i rec);
}
