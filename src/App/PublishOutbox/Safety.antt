-- ===== src/App/PublishOutbox/Safety.antt =====
-- internal/app/publish_outbox.go: a run loses no event, publishes only what the publisher accepted,
-- and takes no publication back.
use jungle.Base.{
  ◌≡◌, refl, ℕ, zero, suc, String, Bool, true, ◌||◌, ◌+◌, Option, none, some, List, [], ◌∷◌, inl,
  inr, Bool-cases,
}
use jungle.Values.{Uuid}
use jungle.Result.{Error, Result, ok, err}
use jungle.Store.Tables.{Db}
use jungle.Store.Action.{World, within}
use jungle.Store.Action.Laws.{>>=-elim, within-keeps}
use jungle.Store.Outbox.{OutboxRecord, oldest_pending}
use jungle.Store.Outbox.History.{
  AllFollow, AllFollow-refl, AllFollow-trans, mark_published-AllFollow, reschedule-AllFollow,
  claim-AllFollow, oldest_pending-db,
}
use jungle.App.ProcessWager.Reads.{read-db}
use jungle.App.PublishOutbox.{
  PublishPolicy, Surroundings, claim_batch, note_outcome, publish_all, after_claim, publish_batch,
  next_pass, run_passes, run_once,
}

module _ (owner : String) (policy : PublishPolicy) (sur : Surroundings) where
  -- The publisher has accepted a record of the event with the id.
  abbrev pub Accepted : Uuid → Type 0
  Accepted id =
      (pass : ℕ) × (i : ℕ) × (rec : OutboxRecord) × (sur.accepts pass i rec ≡ true)
      × (rec.event.event_id ≡ id)

  abbrev Kept : Db → Db → Type 0
  Kept a b = AllFollow Accepted a.outbox b.outbox

  -- A transaction of the database whose body, where it succeeds, keeps the events.
  within-Kept :
      {A : Type 0} (body : World → Result A × World) (s : World)
      → ((s₁ : World) (a : A) (s₂ : World) → body s₁ ≡ (ok a, s₂) → Kept s₁.db s₂.db)
      → Kept s.db (within body s).1.db
  within-Kept body s keeps =
      within-keeps (Kept s.db) body s (AllFollow-refl Accepted s.db.outbox) λ s₁ a s₂ h ran.
        AllFollow-trans Accepted s.db.outbox s₁.db.outbox s₂.db.outbox h (keeps s₁ a s₂ ran)

  note_outcome-Kept :
      (pass i : ℕ) (rec : OutboxRecord) (s s' : World)
      → note_outcome owner policy sur pass i rec s ≡ (ok tt, s')
      → Kept s.db s'.db
  note_outcome-Kept pass i rec s s' h = elim (Bool-cases (sur.accepts pass i rec)) [
    | inl accepted ↦
        mark_published-AllFollow Accepted rec.event.event_id (sur.marks_at pass i) s s'
          (pass, i, rec, accepted, refl) (rw accepted at h)
    | inr refused ↦
        reschedule-AllFollow Accepted rec.event.event_id (rec.attempts + 1) _ s s' (rw refused at h)
  ]

  claim_batch-Kept :
      (pass : ℕ) (s : World) (batch : List OutboxRecord) (s' : World)
      → claim_batch owner policy sur pass s ≡ (ok batch, s')
      → Kept s.db s'.db
  claim_batch-Kept pass s batch s' h =
      >>=-elim (oldest_pending (sur.starts_at pass)) _ s h λ lag s₁ read h₁.
        let same =
          read-db (oldest_pending (sur.starts_at pass)) s read
            (oldest_pending-db (sur.starts_at pass) s) in
        let kept =
          claim-AllFollow Accepted owner policy.batch_size policy.lock_for (sur.starts_at pass) s₁
            batch s' h₁ in
        rw (← same) kept

  publish_all-Kept :
      (pass i : ℕ) (batch : List OutboxRecord) (s : World)
      → Kept s.db (publish_all owner policy sur pass i batch s).1.db
  unfolding publish_all
  publish_all-Kept pass i [] s = AllFollow-refl Accepted s.db.outbox
  publish_all-Kept pass i (rec ∷ batch) s = elim (Bool-cases (sur.ends_before pass i)) [
    | inl ended ↦ rw ended (AllFollow-refl Accepted s.db.outbox)
    | inr running ↦
        let s₁ = (within (note_outcome owner policy sur pass i rec) s).1 in
        let first =
          within-Kept (note_outcome owner policy sur pass i rec) s
            (λ s₁ u s₂ ran. note_outcome-Kept pass i rec s₁ s₂ ran) in
        let others = publish_all-Kept pass (i + 1) batch s₁ in
        rw running (AllFollow-trans Accepted s.db.outbox s₁.db.outbox _ first others)
  ]

  after_claim-Kept :
      (pass : ℕ) (s : World) (r : Result (List OutboxRecord) × World)
      → Kept s.db r.1.db
      → Kept s.db (after_claim owner policy sur pass r).1.db
  after_claim-Kept pass s (err e, s₁) h = h
  after_claim-Kept pass s (ok batch, s₁) h =
      AllFollow-trans Accepted s.db.outbox s₁.db.outbox _ h (publish_all-Kept pass 0 batch s₁)

  publish_batch-Kept :
      (pass : ℕ) (s : World) → Kept s.db (publish_batch owner policy sur pass s).1.db
  unfolding publish_batch
  publish_batch-Kept pass s =
      after_claim-Kept pass s (within (claim_batch owner policy sur pass) s) (
        within-Kept (claim_batch owner policy sur pass) s
          (λ s₁ batch s₂ ran. claim_batch-Kept pass s₁ batch s₂ ran))

  next_pass-Kept :
      (pass total : ℕ) (drained : Bool) (o : Option Error) (s : World)
      (rest : World → (ℕ × Option Error) × World) (a : Db)
      → Kept a s.db
      → Kept a (rest s).1.db
      → Kept a (next_pass owner policy sur pass total drained o s rest).1.db
  next_pass-Kept pass total drained (some e) s rest a h k = h
  next_pass-Kept pass total drained none s rest a h k =
      elim (Bool-cases (drained || sur.ends_after pass)) [
        | inl over ↦ rw over h
        | inr more ↦ rw more k
      ]

  run_passes-Kept :
      (left pass total : ℕ) (s : World)
      → Kept s.db (run_passes owner policy sur left pass total s).1.db
  unfolding run_passes
  run_passes-Kept zero pass total s = AllFollow-refl Accepted s.db.outbox
  run_passes-Kept (suc left) pass total s =
      let (b, s₁) = publish_batch owner policy sur pass s in
      let first = publish_batch-Kept pass s in
      let rest = run_passes owner policy sur left (pass + 1) (total + b.published) in
      next_pass-Kept pass (total + b.published) b.is_drained b.failure s₁ rest s.db first (
        AllFollow-trans Accepted s.db.outbox s₁.db.outbox (rest s₁).1.db.outbox first
          (run_passes-Kept left (pass + 1) (total + b.published) s₁))

  -- However a run ends, the outbox has the same events in the same order, those published before
  -- are published with the same time, and those published since are events of which the publisher
  -- has accepted a record.
  pub run_once-AllFollow :
      (s : World) → AllFollow Accepted s.db.outbox (run_once owner policy sur s).1.db.outbox
  unfolding run_once
  run_once-AllFollow s = run_passes-Kept policy.max_passes_per_run 0 0 s
