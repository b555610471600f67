-- ===== src/App/Transactions/Publisher.antt =====
-- internal/app/publish_outbox.go: a run keeps what its database transactions keep.
use jungle.Base.{ℕ, zero, suc, String, Bool, true, ◌||◌, Option, none, some, List, [], ◌∷◌, ◌+◌}
use jungle.Result.{Error, Result, ok, err}
use jungle.Store.Action.{World, within}
use jungle.Store.Action.Histories.{History, Keeps, Keeps-then, Keeps-choose}
use jungle.Store.Outbox.{OutboxRecord}
use jungle.App.Transactions.{Transactions}
use jungle.App.PublishOutbox.{
  PublishPolicy, Surroundings, claim_batch, note_outcome, publish_all, publish_batch, after_claim,
  counted, next_pass, run_passes, run_once,
}

module _ {H : History} (parts : Transactions H) (owner : String) (policy : PublishPolicy)
    (sur : Surroundings) where
  publish_all-Keeps :
      (pass i : ℕ) (batch : List OutboxRecord) → Keeps H (publish_all owner policy sur pass i batch)
  unfolding publish_all
  publish_all-Keeps pass i [] = record { at = λ s. H.stay s.db }
  publish_all-Keeps pass i (rec ∷ batch) =
      let noted = note_outcome owner policy sur pass i rec in
      let others = publish_all-Keeps pass (i + 1) batch in
      Keeps-choose (sur.ends_before pass i) (λ s. ((0, true), s)) _
        (record { at = λ s. H.stay s.db })
        (Keeps-then (within noted)
          (λ r s₁.
            let ((n, ended), s₂) = publish_all owner policy sur pass (i + 1) batch s₁ in
            ((counted owner policy sur (sur.accepts pass i rec) r n, ended), s₂))
          (parts.noted owner policy sur pass i rec) (λ r. record { at = others.at }))

  after_claim-Keeps :
      (pass : ℕ) (r : Result (List OutboxRecord))
      → Keeps H (λ s. after_claim owner policy sur pass (r, s))
  after_claim-Keeps pass (err e) = record { at = λ s. H.stay s.db }
  after_claim-Keeps pass (ok batch) = record { at = (publish_all-Keeps pass 0 batch).at }

  publish_batch-Keeps : (pass : ℕ) → Keeps H (publish_batch owner policy sur pass)
  unfolding publish_batch
  publish_batch-Keeps pass =
      Keeps-then (within (claim_batch owner policy sur pass))
        (λ r s. after_claim owner policy sur pass (r, s)) (parts.claimed owner policy sur pass)
        (after_claim-Keeps pass)

  next_pass-Keeps :
      (pass total : ℕ) (drained : Bool) (failure : Option Error)
      (rest : World → (ℕ × Option Error) × World)
      → Keeps H rest
      → Keeps H (λ s. next_pass owner policy sur pass total drained failure s rest)
  next_pass-Keeps pass total drained (some e) rest kept = record { at = λ s. H.stay s.db }
  next_pass-Keeps pass total drained none rest kept =
      Keeps-choose (drained || sur.ends_after pass) (λ s. ((total, none), s)) rest
        (record { at = λ s. H.stay s.db }) kept

  run_passes-Keeps : (left pass total : ℕ) → Keeps H (run_passes owner policy sur left pass total)
  unfolding run_passes
  run_passes-Keeps zero pass total = record { at = λ s. H.stay s.db }
  run_passes-Keeps (suc left) pass total =
      Keeps-then (publish_batch owner policy sur pass)
        (λ b s.
          next_pass owner policy sur pass (total + b.published) b.is_drained b.failure s
            (run_passes owner policy sur left (pass + 1) (total + b.published)))
        (publish_batch-Keeps pass)
        (λ b.
          next_pass-Keeps pass (total + b.published) b.is_drained b.failure
            (run_passes owner policy sur left (pass + 1) (total + b.published))
            (run_passes-Keeps left (pass + 1) (total + b.published)))

  pub run_once-Keeps : Keeps H (run_once owner policy sur)
  unfolding run_once
  run_once-Keeps = run_passes-Keeps policy.max_passes_per_run 0 0
