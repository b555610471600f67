-- ===== src/App/Transactions/Reversals.antt =====
-- internal/app: no database transaction has a wager reversed a second time.
use jungle.Store.Action.Laws.{within-keeps}
use jungle.Store.Action.Histories.{History, Keeps-within}
use jungle.Store.Reversals.{IsReversedOnce}
use jungle.Store.Statements.{OutboxWrites}
use jungle.Store.Statements.Outbox.{OutboxWrites-of}
use jungle.App.OpenWallet.{open_new}
use jungle.App.OpenWallet.Reversals.{open_new-IsReversedOnce}
use jungle.App.ProcessWager.{process}
use jungle.App.ProcessWager.Reversals.{process-IsReversedOnce}
use jungle.App.ResolveReferences.{claim}
use jungle.App.ResolveReferences.Histories.{claim-Keeps}
use jungle.App.ResolveReferences.Reversals.{settle_one-IsReversedOnce, fail_body-IsReversedOnce}
use jungle.App.PublishOutbox.{claim_batch, note_outcome}
use jungle.App.PublishOutbox.Histories.{claim_batch-Keeps, note_outcome-Keeps}
use jungle.App.Transactions.{Transactions}

-- Tables in which all is reversed at most once lead to such tables.
abbrev pub single_reversal : History
single_reversal = record {
  Leads = λ a b. IsReversedOnce a → IsReversedOnce b;
  stay = λ db h. h;
  join = λ a b c f g h. g (f h);
}

single_reversal-OutboxWrites : OutboxWrites single_reversal
single_reversal-OutboxWrites = OutboxWrites-of λ db rows h. h

pub single_reversal-Transactions : Transactions single_reversal
single_reversal-Transactions = record {
  opened = λ ids now cmd _. record {
    at = λ s once.
        within-keeps IsReversedOnce (open_new ids now cmd) s once
          λ s₁ w s₂ once₁ ran. open_new-IsReversedOnce ids now cmd s₁ w s₂ once₁ ran;
  };
  processed = λ ids now cmd _. record {
    at = λ s once.
        within-keeps IsReversedOnce (process ids now cmd) s once
          λ s₁ r s₂ once₁ ran. process-IsReversedOnce ids now cmd s₁ r s₂ once₁ ran;
  };
  due = λ policy turns now. Keeps-within (claim policy turns now) (claim-Keeps policy turns now);
  tried = λ policy turn rec. record { at = settle_one-IsReversedOnce policy turn rec };
  abandoned = λ policy turn rec. record { at = fail_body-IsReversedOnce policy turn rec };
  claimed = λ owner policy sur pass.
      Keeps-within (claim_batch owner policy sur pass)
        (claim_batch-Keeps single_reversal-OutboxWrites owner policy sur pass);
  noted = λ owner policy sur pass i rec.
      Keeps-within (note_outcome owner policy sur pass i rec)
        (note_outcome-Keeps single_reversal-OutboxWrites owner policy sur pass i rec);
}
