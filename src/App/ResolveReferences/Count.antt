-- ===== src/App/ResolveReferences/Count.antt =====
-- internal/app/resolve_references.go: a run returns an error only where its claim does, and counts no
-- more transactions than it claims.
use jungle.Base.{
  ◌≡◌, ◌∙◌, refl, ap, ◌≤◌, ◌⊎◌, length, arith, ℕ, Bool, true, false, ◌+◌, List, [], ◌∷◌, inl, inr,
  if◌then◌else◌,
}
use jungle.Values.{Time}
use jungle.Int.{pos, ltb_ℤ}
use jungle.Result.{Error, Result, ok, err}
use jungle.Store.Tables.{TransactionRow}
use jungle.Store.Action.{Action, World, within, pure, call, continue, ◌>>=◌}
use jungle.Store.Action.Laws.{>>=-elim, within-ok}
use jungle.Store.References.{
  PendingReferenceRecord, is_due, is_first, pending_records, appended, claim_pending_reference,
  count_pending_reference,
}
use jungle.App.ResolveReferences.{
  ReferencePolicy, Turn, settle_one, fail_body, record_permanent_failure, or_record_failure,
  take_turn, settle_all, claim, run_once, or_false,
}
use jungle.Store.Select.{select}
use jungle.Store.Select.Laws.{length-select}

module _ {A B : Type 0} where
  -- A chain whose first part succeeds goes on with the second.
  >>=-continues :
      (m : Action A) (f : A → Action B) (s : World) (a : A)
      → (m s).0 ≡ ok a
      → (m >>= f) s ≡ f a (m s).1
  unfolding ◌>>=◌
  >>=-continues m f s a h = ap (λ r. continue r f (m s).1) h

  >>=-stops :
      (m : Action A) (f : A → Action B) (s : World) (e : Error)
      → (m s).0 ≡ err e
      → ((m >>= f) s).0 ≡ err e
  unfolding ◌>>=◌
  >>=-stops m f s e h = ap (λ r. (continue r f (m s).1).0) h

-- The number of a count that is no error.
abbrev Counts : ℕ → Result ℕ → Type 0
Counts most r = (n : ℕ) × (r ≡ ok n) × (n ≤ most)

appended-length :
    (first : Result PendingReferenceRecord) (rest : Result (List PendingReferenceRecord))
    (due : List PendingReferenceRecord)
    → appended first rest ≡ ok due
    → (others : List PendingReferenceRecord) × (rest ≡ ok others) × (length due ≡ length others + 1)
appended-length (err e) rest due h = absurd cc
appended-length (ok first) (err e) due h = absurd cc
appended-length (ok first) (ok others) due h = (others, refl, ground arith)

pending_records-length :
    (rows : List TransactionRow) (due : List PendingReferenceRecord)
    → pending_records rows ≡ ok due
    → length due ≡ length rows
unfolding pending_records
pending_records-length [] due h = ground arith
pending_records-length (r ∷ rows) due h =
    let (others, rest, grown) = appended-length _ (pending_records rows) due h in
    omega (arith, grown, pending_records-length rows others rest)

claim-length :
    (limit : ℕ) (now : Time) (s : World) (due : List PendingReferenceRecord) (s' : World)
    → claim_pending_reference limit now s ≡ (ok due, s')
    → length due ≤ limit
unfolding claim_pending_reference ◌>>=◌
claim-length limit now s due s' h =
    let rows = select (is_due now) is_first limit (call s).1.db.transactions in
    let read : pending_records rows ≡ ok due = ground arith in
    rw (pending_records-length rows due read)
      (length-select (is_due now) is_first limit (call s).1.db.transactions)

module _ (policy : ReferencePolicy) (turn : Turn) (rec : PendingReferenceRecord) where
  or_false-ok : (r : Result Bool × World) → (b : Bool) × ((or_false policy turn rec r).0 ≡ ok b)
  or_false-ok (ok b, s) = (b, refl)
  or_false-ok (err e, s) = (false, refl)

  either-ok :
      (c : Bool) (x y : Result Bool × World)
      → (b : Bool) × (x.0 ≡ ok b)
      → (b : Bool) × (y.0 ≡ ok b)
      → (b : Bool) × ((if c then x else y).0 ≡ ok b)
  either-ok true x y p q = p
  either-ok false x y p q = q

  record_permanent_failure-ok :
      (s : World) → (b : Bool) × ((record_permanent_failure policy turn rec s).0 ≡ ok b)
  unfolding record_permanent_failure
  record_permanent_failure-ok s =
      either-ok turn.is_cancelled _ _ (false, refl)
        (either-ok (ltb_ℤ (pos (rec.attempts + 1)) policy.max_attempts) _ _ (false, refl)
          (or_false-ok (within (fail_body policy turn rec) s)))

  or_record_failure-ok :
      (r : Result Bool × World) → (b : Bool) × ((or_record_failure policy turn rec r).0 ≡ ok b)
  or_record_failure-ok (ok b, s) = (b, refl)
  or_record_failure-ok (err e, s) = record_permanent_failure-ok s

  take_turn-ok : (s : World) → (b : Bool) × ((take_turn policy turn rec s).0 ≡ ok b)
  take_turn-ok s = or_record_failure-ok (settle_one policy turn rec s)

module _ (policy : ReferencePolicy) (turns : ℕ → Turn) where
  settle_all-Counts :
      (i : ℕ) (due : List PendingReferenceRecord) (s : World)
      → Counts (length due) (settle_all policy turns i due s).0
  unfolding settle_all
  settle_all-Counts i [] s = (0, refl, omega arith)
  settle_all-Counts i (rec ∷ due) s =
      let (moved, taken) = take_turn-ok policy (turns i) rec s in
      let s₁ = (take_turn policy (turns i) rec s).1 in
      let (n, others, most) = settle_all-Counts (i + 1) due s₁ in
      let first = >>=-continues (take_turn policy (turns i) rec) _ s moved taken in
      let second =
        >>=-continues (settle_all policy turns (i + 1) due) (λ n. pure (if moved then n + 1 else n))
          s₁ n others in
      (if moved then n + 1 else n, ap (λ x. x.0) (first ∙ second), ground arith)

  claimed-bounded :
      (now : Time) (s : World) (due : List PendingReferenceRecord) (s' : World)
      → claim policy turns now s ≡ (ok due, s')
      → length due ≤ 50
  claimed-bounded now s due s' h =
      >>=-elim count_pending_reference _ s h λ n s₁ counted h₁. claim-length _ now s₁ due s' h₁

  -- A run either returns the error of its claim, or counts at most the fifty transactions of a
  -- batch, whichever of its records fail: it never ends in an error of one of them.
  pub run_once-bounded :
      (now : Time) (s : World)
      → ((e : Error) × ((run_once policy turns now s).0 ≡ err e)
          × ((within (claim policy turns now) s).0 ≡ err e))
        ⊎ Counts 50 (run_once policy turns now s).0
  unfolding run_once
  run_once-bounded now s = go (within (claim policy turns now) s).0 refl
    where
      go :
          (r : Result (List PendingReferenceRecord))
          → (within (claim policy turns now) s).0 ≡ r
          → ((e : Error) × ((run_once policy turns now s).0 ≡ err e)
              × ((within (claim policy turns now) s).0 ≡ err e))
            ⊎ Counts 50 (run_once policy turns now s).0
      go (err e) h = inl (e, >>=-stops _ (settle_all policy turns 0) s e h, h)
      go (ok due) h =
          let s₁ = (within (claim policy turns now) s).1 in
          let (s₂, s₃, _, ran, _) =
            within-ok (claim policy turns now) s due s₁ (ap (λ r. (r, s₁)) h) in
          let (n, counted, most) = settle_all-Counts 0 due s₁ in
          let small = claimed-bounded now s₂ due s₃ ran in
          inr (
            n,
            ap (λ x. x.0) (>>=-continues _ (settle_all policy turns 0) s due h) ∙ counted,
            omega arith,
          )
