-- ===== src/Store/Statements/Outbox.antt =====
-- internal/postgres/outbox_repo.go: the statements on published events write to no other table.
use jungle.Base.{List}
use jungle.Store.Tables.{Db, OutboxRow}
use jungle.Store.Action.Histories.{History, Keeps-either}
use jungle.Store.Outcomes.{claim-either, mark_published-either, reschedule-either}
use jungle.Store.Statements.{OutboxWrites}

-- A relation that the outbox does not matter for is kept by them.
pub OutboxWrites-of :
    {H : History}
    → ((db : Db) (rows : List OutboxRow) → H.Leads db (record db { outbox = rows }))
    → OutboxWrites H
OutboxWrites-of {H} free = record {
  claimed = λ owner limit lock_for now.
      Keeps-either _ _ (claim-either owner limit lock_for now) λ s new. rw new (free s.db _);
  published =
      λ id now. Keeps-either _ _ (mark_published-either id now) λ s new. rw new (free s.db _);
  postponed = λ id attempts next.
      Keeps-either _ _ (reschedule-either id attempts next) λ s new. rw new (free s.db _);
}
