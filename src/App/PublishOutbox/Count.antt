-- ===== src/App/PublishOutbox/Count.antt =====
-- internal/app/publish_outbox.go: how many events one run publishes at most.
use jungle.Base.{
  ◌≡◌, refl, ap, arith, ℕ, zero, suc, String, Bool, true, false, ◌||◌, ◌+◌, ◌*◌, ◌≤◌, Option, none,
  some, List, [], ◌∷◌, length, inl, inr, Bool-cases, map,
}
use jungle.Result.{Error, Result, ok, err}
use jungle.Store.Action.{World, within}
use jungle.Store.Action.Laws.{>>=-elim, within-ok}
use jungle.Store.Select.Laws.{length-select}
use jungle.Store.Outbox.{OutboxRecord, oldest_pending, record_of, claimed, is_claimable, is_first}
use jungle.Store.Outbox.History.{claim-db}
use jungle.App.PublishOutbox.{
  PublishPolicy, Surroundings, claim_batch, note_outcome, publish_all, after_claim, batch_of,
  counted, publish_batch, next_pass, run_passes, run_once,
}

length-map {ℓ κ} :
    {A : Type ℓ} {B : Type κ} (f : A → B) (xs : List A) → length (map f xs) ≡ length xs
length-map f [] = refl
length-map f (x ∷ xs) = ap suc (length-map f xs)

module _ (owner : String) (policy : PublishPolicy) (sur : Surroundings) where
  claim_batch-length :
      (pass : ℕ) (s : World) (batch : List OutboxRecord) (s' : World)
      → claim_batch owner policy sur pass s ≡ (ok batch, s')
      → length batch ≤ policy.batch_size
  claim_batch-length pass s batch s' h =
      >>=-elim (oldest_pending (sur.starts_at pass)) _ s h λ lag s₁ read h₁.
        let now = sur.starts_at pass in
        let (same, _) = claim-db owner policy.batch_size policy.lock_for now s₁ batch s' h₁ in
        rw (same, length-map record_of (claimed policy.batch_size now s₁.db.outbox))
          (length-select (is_claimable now) is_first policy.batch_size s₁.db.outbox)

  counted-le :
      (accepted : Bool) (r : Result (Unit {0})) (n : ℕ)
      → counted owner policy sur accepted r n ≤ n + 1
  counted-le true (ok _) n = omega arith
  counted-le false (ok _) n = omega arith
  counted-le accepted (err e) n = omega arith

  publish_all-le :
      (pass i : ℕ) (batch : List OutboxRecord) (s : World)
      → (publish_all owner policy sur pass i batch s).0.0 ≤ length batch
  unfolding publish_all
  publish_all-le pass i [] s = omega arith
  publish_all-le pass i (rec ∷ batch) s = elim (Bool-cases (sur.ends_before pass i)) [
    | inl ended ↦ rw ended (omega arith)
    | inr running ↦
        let (noted, s₁) = within (note_outcome owner policy sur pass i rec) s in
        let others = publish_all-le pass (i + 1) batch s₁ in
        let n = (publish_all owner policy sur pass (i + 1) batch s₁).0.0 in
        rw running (omega (arith, others, counted-le (sur.accepts pass i rec) noted n))
  ]

  batch_of-published :
      (size : ℕ) (p : ℕ × Bool) → (batch_of owner policy sur size p).published ≡ p.0
  batch_of-published size (n, true) = refl
  batch_of-published size (n, false) = refl

  after_claim-le :
      (pass : ℕ) (r : Result (List OutboxRecord) × World)
      → ((batch : List OutboxRecord) → r.0 ≡ ok batch → length batch ≤ policy.batch_size)
      → (after_claim owner policy sur pass r).0.published ≤ policy.batch_size
  after_claim-le pass (err e, s) most = omega arith
  after_claim-le pass (ok batch, s) most =
      rw (batch_of-published (length batch) (publish_all owner policy sur pass 0 batch s).0)
        (omega (arith, most batch refl, publish_all-le pass 0 batch s))

  publish_batch-le :
      (pass : ℕ) (s : World)
      → (publish_batch owner policy sur pass s).0.published ≤ policy.batch_size
  unfolding publish_batch
  publish_batch-le pass s =
      after_claim-le pass (within (claim_batch owner policy sur pass) s) λ batch claimed_some.
        let s' = (within (claim_batch owner policy sur pass) s).1 in
        let (s₁, s₂, _, ran, _) =
          within-ok (claim_batch owner policy sur pass) s batch s'
            (ap (λ r. (r, s')) claimed_some) in
        claim_batch-length pass s₁ batch s₂ ran

  next_pass-le :
      (pass total : ℕ) (drained : Bool) (o : Option Error) (s : World)
      (rest : World → (ℕ × Option Error) × World) (most : ℕ)
      → total ≤ most
      → (rest s).0.0 ≤ most
      → (next_pass owner policy sur pass total drained o s rest).0.0 ≤ most
  next_pass-le pass total drained (some e) s rest most h k = h
  next_pass-le pass total drained none s rest most h k =
      elim (Bool-cases (drained || sur.ends_after pass)) [
        | inl over ↦ rw over h
        | inr more ↦ rw more k
      ]

  run_passes-le :
      (left pass total : ℕ) (s : World)
      → (run_passes owner policy sur left pass total s).0.0 ≤ total + left * policy.batch_size
  unfolding run_passes
  run_passes-le zero pass total s = omega arith
  run_passes-le (suc left) pass total s =
      let (b, s₁) = publish_batch owner policy sur pass s in
      let one = publish_batch-le pass s in
      let rest = run_passes owner policy sur left (pass + 1) (total + b.published) in
      let others = run_passes-le left (pass + 1) (total + b.published) s₁ in
      next_pass-le pass (total + b.published) b.is_drained b.failure s₁ rest
        (total + suc left * policy.batch_size) (omega (arith, one)) (omega (arith, one, others))

  -- A run counts no more events than its greatest number of passes times the size of a batch,
  -- whichever of its calls fail.
  pub run_once-le :
      (s : World)
      → (run_once owner policy sur s).0.0 ≤ policy.max_passes_per_run * policy.batch_size
  unfolding run_once
  run_once-le s = omega (arith, run_passes-le policy.max_passes_per_run 0 0 s)
