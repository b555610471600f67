-- ===== src/App/PublishOutbox/Histories.antt =====
-- internal/app/publish_outbox.go: the transactions keep what the statements on
-- published events keep.
use jungle.Base.{ℕ, String}
use jungle.Store.Action.Histories.{History, Keeps, Keeps-read}
use jungle.Store.Outbox.{OutboxRecord, oldest_pending}
use jungle.Store.Outbox.History.{oldest_pending-db}
use jungle.Store.Statements.{OutboxWrites, keeps_rules}
use jungle.App.PublishOutbox.{PublishPolicy, Surroundings, claim_batch, note_outcome}

module _ {H : History} (writes : OutboxWrites H) (owner : String) (policy : PublishPolicy)
    (sur : Surroundings) where
  pub claim_batch-Keeps : (pass : ℕ) → Keeps H (claim_batch owner policy sur pass)
  claim_batch-Keeps pass = search (
    keeps_rules,
    Keeps-read (oldest_pending (sur.starts_at pass)) (oldest_pending-db (sur.starts_at pass)),
    writes.claimed,
  )

  pub note_outcome-Keeps :
      (pass i : ℕ) (rec : OutboxRecord) → Keeps H (note_outcome owner policy sur pass i rec)
  note_outcome-Keeps pass i rec = search (keeps_rules, writes.published, writes.postponed)
