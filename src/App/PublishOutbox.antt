-- ===== src/App/PublishOutbox.antt =====
-- internal/app/publish_outbox.go: events of the outbox are claimed, given to the publisher, and
-- marked as published or tried again later. Metrics are left out.
pub mod Safety
pub mod Histories
pub mod Count
use jungle.Base.{
  ℕ, zero, suc, String, Bool, true, false, ◌||◌, Option, none, some, List, [], ◌∷◌, ◌+◌, ltb,
  if◌then◌else◌, length,
}
use jungle.Values.{Time}
use jungle.Int.{pos}
use jungle.Result.{Error, Result, ok, err, infrastructure}
use jungle.Store.Action.{Action, World, within, ◌>>=◌, ◌>>◌}
use jungle.Store.Outbox
use jungle.Store.Outbox.{OutboxRecord, oldest_pending, mark_published, reschedule}
use jungle.App.Backoff.{Duration, backoff_for, add_time}

-- `PublishPolicy`; the two sizes are not negative.
pub record PublishPolicy : Type 0 where
  pub batch_size : ℕ
  pub max_passes_per_run : ℕ
  pub lock_for : Duration
  pub base_backoff : Duration
  pub max_backoff : Duration

-- `DefaultPublishPolicy`, in nanoseconds
abbrev pub default_publish_policy : PublishPolicy
default_publish_policy = record {
  batch_size = 100;
  max_passes_per_run = 20;
  lock_for = pos 30000000000;
  base_backoff = pos 1000000000;
  max_backoff = pos 60000000000;
}

-- What a run takes from outside, by the pass and by the place of a record in its batch: whether the
-- publisher accepts it, the clock's times, and whether the context has ended.
pub record Surroundings : Type 0 where
  pub accepts : ℕ → ℕ → OutboxRecord → Bool
  pub starts_at : ℕ → Time
  pub marks_at : ℕ → ℕ → Time
  pub ends_before : ℕ → ℕ → Bool
  pub ends_after : ℕ → Bool

-- What `publishBatch` returns.
pub record Batch : Type 0 where
  pub published : ℕ
  pub is_drained : Bool
  pub failure : Option Error

module _ (owner : String) (policy : PublishPolicy) (sur : Surroundings) where
  abbrev pub claim_batch : ℕ → Action (List OutboxRecord)
  claim_batch pass = do
    oldest_pending (sur.starts_at pass)
    Outbox.claim owner policy.batch_size policy.lock_for (sur.starts_at pass)

  -- What is noted of a record after the publisher has seen it.
  abbrev pub note_outcome : ℕ → ℕ → OutboxRecord → Action (Unit {0})
  note_outcome pass i rec =
      if sur.accepts pass i rec
      then mark_published rec.event.event_id (sur.marks_at pass i)
      else reschedule rec.event.event_id (rec.attempts + 1) (
          add_time (sur.marks_at pass i)
            (backoff_for policy.base_backoff policy.max_backoff (pos (rec.attempts + 1))))

  abbrev pub counted : Bool → Result (Unit {0}) → ℕ → ℕ
  counted accepted (ok _) n = if accepted then n + 1 else n
  counted accepted (err e) n = n

  -- The loop of `publishBatch` from the record at place `i` on: the number published, and whether
  -- the context has ended it.
  unfoldable pub publish_all : ℕ → ℕ → List OutboxRecord → World → (ℕ × Bool) × World
  publish_all pass i [] s = ((0, false), s)
  publish_all pass i (rec ∷ batch) s =
      let rest = publish_all pass (i + 1) batch in
      if sur.ends_before pass i
      then ((0, true), s)
      else (let (noted, s₁) = within (note_outcome pass i rec) s in
          let ((n, ended), s₂) = rest s₁ in ((counted (sur.accepts pass i rec) noted n, ended), s₂))

  -- The end of the context is an error of no package of the program.
  abbrev pub batch_of : ℕ → ℕ × Bool → Batch
  batch_of size (n, true) = record {
    published = n;
    is_drained = true;
    failure = some infrastructure;
  }
  batch_of size (n, false) = record {
    published = n;
    is_drained = ltb size policy.batch_size;
    failure = none;
  }

  abbrev pub after_claim : ℕ → Result (List OutboxRecord) × World → Batch × World
  after_claim pass (err e, s) = (record { published = 0; is_drained = false; failure = some e }, s)
  after_claim pass (ok batch, s) =
      let (outcome, s') = publish_all pass 0 batch s in (batch_of (length batch) outcome, s')

  -- `publishBatch`
  unfoldable pub publish_batch : ℕ → World → Batch × World
  publish_batch pass s = after_claim pass (within (claim_batch pass) s)

  -- After a pass that was drained or not and failed or not: the end of the loop, or the `rest`.
  abbrev pub next_pass :
      ℕ
      → ℕ
      → Bool
      → Option Error
      → World
      → (World → (ℕ × Option Error) × World)
      → (ℕ × Option Error) × World
  next_pass pass total drained (some e) s rest = ((total, some e), s)
  next_pass pass total drained none s rest =
      if drained || sur.ends_after pass then ((total, none), s) else rest s

  -- The loop of `RunOnce` with `left` passes to go, after `total` events.
  unfoldable pub run_passes : ℕ → ℕ → ℕ → World → (ℕ × Option Error) × World
  run_passes zero pass total s = ((total, none), s)
  run_passes (suc left) pass total s =
      let (b, s₁) = publish_batch pass s in
      next_pass pass (total + b.published) b.is_drained b.failure s₁
        (run_passes left (pass + 1) (total + b.published))

  -- `RunOnce`
  unfoldable pub run_once : World → (ℕ × Option Error) × World
  run_once s = run_passes policy.max_passes_per_run 0 0 s
