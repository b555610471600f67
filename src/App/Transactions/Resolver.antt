-- ===== src/App/Transactions/Resolver.antt =====
-- internal/app/resolve_references.go: a run keeps what its database transactions keep.
use jungle.Base.{ℕ, Bool, false, List, [], ◌∷◌, ◌+◌, ◌≡◌, refl}
use jungle.Values.{Time}
use jungle.Int.{pos, ltb_ℤ}
use jungle.Result.{Result, ok, err}
use jungle.Store.Action.{World, within, pure}
use jungle.Store.Action.Histories.{History, Keeps, Keeps-then, Keeps-bind, Keeps-lift, Keeps-choose}
use jungle.Store.References.{PendingReferenceRecord}
use jungle.Store.Statements.{keeps_rules}
use jungle.App.Transactions.{Transactions}
use jungle.App.ResolveReferences.{
  ReferencePolicy, Turn, settle_one, fail_body, or_false, record_permanent_failure,
  or_record_failure, take_turn, settle_all, claim, run_once,
}

module _ {H : History} (parts : Transactions H) (policy : ReferencePolicy) where
  module _ (turn : Turn) (rec : PendingReferenceRecord) where
    or_false-db : (r : Result Bool × World) → (or_false policy turn rec r).1.db ≡ r.1.db
    or_false-db (ok b, s) = refl
    or_false-db (err e, s) = refl

    fail_again-Keeps :
        Keeps H (λ s. or_false policy turn rec (within (fail_body policy turn rec) s))
    fail_again-Keeps = record {
      at = λ s.
          rw (or_false-db (within (fail_body policy turn rec) s))
            ((parts.abandoned policy turn rec).at s);
    }

    record_permanent_failure-Keeps : Keeps H (record_permanent_failure policy turn rec)
    unfolding record_permanent_failure
    record_permanent_failure-Keeps =
        Keeps-choose turn.is_cancelled (pure false) _ (Keeps-lift (ok false)) (
          Keeps-choose (ltb_ℤ (pos (rec.attempts + 1)) policy.max_attempts) (pure false) _
            (Keeps-lift (ok false)) fail_again-Keeps)

    or_record_failure-Keeps :
        (r : Result Bool) → Keeps H (λ s. or_record_failure policy turn rec (r, s))
    or_record_failure-Keeps (ok moved) = Keeps-lift (ok moved)
    or_record_failure-Keeps (err e) = record_permanent_failure-Keeps

    pub take_turn-Keeps : Keeps H (take_turn policy turn rec)
    take_turn-Keeps =
        Keeps-then (settle_one policy turn rec) (λ r s. or_record_failure policy turn rec (r, s))
          (parts.tried policy turn rec) or_record_failure-Keeps

  module _ (turns : ℕ → Turn) where
    settle_all-Keeps :
        (i : ℕ) (due : List PendingReferenceRecord) → Keeps H (settle_all policy turns i due)
    unfolding settle_all
    settle_all-Keeps i [] = Keeps-lift (ok 0)
    settle_all-Keeps i (rec ∷ due) =
        let others = settle_all-Keeps (i + 1) due in
        search (keeps_rules, take_turn-Keeps (turns i) rec, others)

    pub run_once-Keeps : (now : Time) → Keeps H (run_once policy turns now)
    unfolding run_once
    run_once-Keeps now =
        Keeps-bind (within (claim policy turns now)) _ (parts.due policy turns now)
          (settle_all-Keeps 0)
