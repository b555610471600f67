-- ===== src/App/Transactions/Statements.antt =====
-- internal/app: what every statement keeps, every transaction keeps.
use jungle.Store.Action.Histories.{History, Keeps-within}
use jungle.Store.Statements.{Writes}
use jungle.App.OpenWallet.{open_new}
use jungle.App.OpenWallet.Histories.{open_new-Keeps}
use jungle.App.ProcessWager.{process}
use jungle.App.ProcessWager.Histories.{process-Keeps}
use jungle.App.ResolveReferences.{claim, fail_body}
use jungle.App.ResolveReferences.Histories.{claim-Keeps, settle_one-Keeps, fail_body-Keeps}
use jungle.App.PublishOutbox.{claim_batch, note_outcome}
use jungle.App.PublishOutbox.Histories.{claim_batch-Keeps, note_outcome-Keeps}
use jungle.App.Transactions.{Transactions}

pub Writes-Transactions : {H : History} → Writes H → Transactions H
Writes-Transactions writes = record {
  opened = λ ids now cmd _. Keeps-within (open_new ids now cmd) (open_new-Keeps writes ids now cmd);
  processed =
      λ ids now cmd _. Keeps-within (process ids now cmd) (process-Keeps writes ids now cmd);
  due = λ policy turns now. Keeps-within (claim policy turns now) (claim-Keeps policy turns now);
  tried = settle_one-Keeps writes;
  abandoned = λ policy turn rec.
      Keeps-within (fail_body policy turn rec) (fail_body-Keeps writes policy turn rec);
  claimed = λ owner policy sur pass.
      Keeps-within (claim_batch owner policy sur pass)
        (claim_batch-Keeps writes.outbox owner policy sur pass);
  noted = λ owner policy sur pass i rec.
      Keeps-within (note_outcome owner policy sur pass i rec)
        (note_outcome-Keeps writes.outbox owner policy sur pass i rec);
}
