-- ===== src/Store/Outbox.antt =====
-- internal/postgres/outbox_repo.go: the claim of events to publish, and what becomes of them. No
-- other instance holds a row lock, so `SKIP LOCKED` skips no row; SQL leaves open in which order
-- `RETURNING` gives the rows, which is here that of the claim. Trace parents are left out.
pub mod History
use jungle.Base.{
  ℕ, String, Bool, true, false, not, ◌&&◌, ◌||◌, Option, none, some, List, [], ◌∷◌, ◌==◌, leb, ltb,
  if◌then◌else◌, map,
}
use jungle.Values.{Uuid, Time}
use jungle.Int.{ℤ}
use jungle.Event.{Envelope}
use jungle.Result.{infrastructure}
use jungle.Store.Tables.{OutboxRow}
use jungle.Store.Action.{Action, pure, gets, modify, fail_if, call, ◌>>=◌, ◌>>◌}
use jungle.Store.Select.{select}
use jungle.Store.References.{max_int4}
use jungle.App.Backoff.{Duration, add_time, sub_time}

-- `OutboxRecord` of internal/app/ports.go; the id, the aggregate, the type and the payload are
-- parts of the event.
pub record OutboxRecord : Type 0 where
  pub event : Envelope
  pub attempts : ℕ

abbrev pub record_of : OutboxRow → OutboxRecord
record_of r = record { event = r.event; attempts = r.attempts }

abbrev pub is_unpublished : OutboxRow → Bool
is_unpublished r = elim r.published_at [ none ↦ true | some t ↦ false ]

abbrev pub is_unlocked : Time → OutboxRow → Bool
is_unlocked now r = elim r.locked_until [ none ↦ true | some t ↦ ltb t now ]

abbrev pub is_claimable : Time → OutboxRow → Bool
is_claimable now r = is_unpublished r && leb r.next_attempt_at now && is_unlocked now r

-- `ORDER BY`
abbrev pub is_first : OutboxRow → OutboxRow → Bool
is_first r r' = leb r.next_attempt_at r'.next_attempt_at

unfoldable pub names : Uuid → List OutboxRow → Bool
names id [] = false
names id (r ∷ rows) = r.event.event_id == id || names id rows

-- An `UPDATE` of the rows that pass a test.
unfoldable pub update_where :
    (OutboxRow → Bool) → (OutboxRow → OutboxRow) → List OutboxRow → List OutboxRow
update_where test f [] = []
update_where test f (r ∷ rows) = (if test r then f r else r) ∷ update_where test f rows

abbrev pub locked : String → Time → OutboxRow → OutboxRow
locked owner until r = record r { locked_by = some owner; locked_until = some until }

abbrev pub claimed : ℕ → Time → List OutboxRow → List OutboxRow
claimed limit now rows = select (is_claimable now) is_first limit rows

-- `Claim`
unfoldable pub claim : String → ℕ → Duration → Time → Action (List OutboxRecord)
claim owner limit lock_for now = do
  call
  rows ← gets (λ db. db.outbox)
  modify (λ db. record db {
    outbox =
        update_where (λ r. names r.event.event_id (claimed limit now rows))
          (locked owner (add_time now lock_for)) db.outbox;
  })
  pure (map record_of (claimed limit now rows))

-- The rows that the `WHERE` of `MarkPublished` and of `Reschedule` names.
abbrev pub is_open : Uuid → OutboxRow → Bool
is_open id r = r.event.event_id == id && is_unpublished r

abbrev pub published : Time → OutboxRow → OutboxRow
published now r = record r { published_at = some now; locked_by = none; locked_until = none }

-- `MarkPublished`
unfoldable pub mark_published : Uuid → Time → Action (Unit {0})
mark_published id now = do
  call
  modify (λ db. record db { outbox = update_where (is_open id) (published now) db.outbox })

abbrev pub rescheduled : ℕ → Time → OutboxRow → OutboxRow
rescheduled attempts next r = record r {
  attempts = attempts;
  next_attempt_at = next;
  locked_by = none;
  locked_until = none;
}

-- `Reschedule`
unfoldable pub reschedule : Uuid → ℕ → Time → Action (Unit {0})
reschedule id attempts next = do
  call
  fail_if (not (leb attempts max_int4)) infrastructure
  modify
      (λ db. record db { outbox = update_where (is_open id) (rescheduled attempts next) db.outbox })

abbrev earlier : Time → Option Time → Time
earlier t none = t
earlier t (some u) = if leb t u then t else u

-- `min(occurred_at)` of the events not yet published
unfoldable pub oldest : List OutboxRow → Option Time
oldest [] = none
oldest (r ∷ rows) =
    let rest = oldest rows in
    if is_unpublished r then some (earlier r.event.occurred_at rest) else rest

abbrev lag_since : Time → Option Time → Option Duration
lag_since now none = none
lag_since now (some t) = some (sub_time now t)

-- `OldestPending`: how long ago the oldest event that is not yet published occurred, if any is.
unfoldable pub oldest_pending : Time → Action (Option Duration)
oldest_pending now = do call; gets (λ db. lag_since now (oldest db.outbox))
