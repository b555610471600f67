-- ===== src/App/ProcessWager/Reversal.antt =====
-- internal/app/process_wager.go: when a refund or rollback moves funds.
use jungle.Base.{◌≡◌, ◌≢◌, refl, ap, arith, Bool, true, false, Option, none, some, if◌then◌else◌}
use jungle.Result.{ok}
use jungle.Wallet.Entry.{LedgerDirection}
use jungle.Wagertx.{WagerTransaction, resolve_reference}
use jungle.Wagertx.Constants.{Status, FailureCode}
use jungle.Store.Action.{World, pure, lift, ◌>>=◌}
use jungle.Store.Action.Laws.{>>=-elim, lift-elim, pure-eq-ok}
use jungle.Store.Transactions.{has_successful_reversal}
use jungle.App.Decide.{
  Decision, DecisionKind, move, refuse, decide_reversal, decide_direction, decide_found,
  decide_reference, reversal_direction, mismatches, optional, find_reference,
}

-- What the code has checked before a reversal moves funds.
pub record Checks (t ref t' : WagerTransaction) (d : Decision) (s : World) : Type 0 where
  pub status :
      (ref.status ≢ Status.pending)
      × (ref.status ≢ Status.pending_reference)
      × (ref.status ≢ Status.rejected)
      × (ref.status ≢ Status.failed)
  pub fits : mismatches ref t ≡ false
  pub direction : reversal_direction t.kind ref.kind ≡ some d.direction
  pub unreversed : (has_successful_reversal ref.id s).0 ≡ ok false
  pub resolved : t'.reference_transaction_id ≡ ref.id

resolve_reference-id :
    (id : _) (t t' : WagerTransaction)
    → resolve_reference id t ≡ ok t'
    → t'.reference_transaction_id ≡ id
unfolding resolve_reference
resolve_reference-id id t t' h = ground arith

abbrev Checked :
    WagerTransaction
    → WagerTransaction
    → Option LedgerDirection
    → WagerTransaction
    → Decision
    → World
    → Type 0
Checked t ref o t' d s =
    (o ≡ some d.direction)
    × ((has_successful_reversal ref.id s).0 ≡ ok false)
    × (t'.reference_transaction_id ≡ ref.id)

after_lookup :
    (t ref : WagerTransaction) (dir : LedgerDirection) (reversed : Bool) (s₀ s : World)
    (t' : WagerTransaction) (d : Decision) (s' : World)
    → has_successful_reversal ref.id s₀ ≡ (ok reversed, s)
    → (if reversed
          then pure {A = WagerTransaction × Decision} (t, refuse FailureCode.duplicate_reversal)
          else (do t'' ← lift (resolve_reference ref.id t); pure (t'', move dir)))
        s
      ≡ (ok (t', d), s')
    → d.kind ≡ DecisionKind.process
    → Checked t ref (some dir) t' d s₀
after_lookup t ref dir true s₀ s t' d s' read h k = absurd (ground arith)
after_lookup t ref dir false s₀ s t' d s' read h k = lift-elim _ _ s h λ t₁ resolved h₁.
    let (is, _) = pure-eq-ok (t₁, move dir) s h₁ in
    (
      rw (ap (λ x. x.1) is) refl,
      rw read refl,
      rw (ap (λ x. x.0) is) (resolve_reference-id ref.id t t₁ resolved),
    )

decide_direction-Checked :
    (t ref : WagerTransaction) (o : Option LedgerDirection) (s : World) (t' : WagerTransaction)
    (d : Decision) (s' : World)
    → decide_direction t ref o s ≡ (ok (t', d), s')
    → d.kind ≡ DecisionKind.process
    → Checked t ref o t' d s
decide_direction-Checked t ref none s t' d s' h k = absurd (ground arith)
decide_direction-Checked t ref (some dir) s t' d s' h k =
    >>=-elim (has_successful_reversal ref.id) _ s h
      λ reversed s₁ read h₁. after_lookup t ref dir reversed s s₁ t' d s' read h₁ k

fitting-Checked :
    (t ref : WagerTransaction) (misfit : Bool) (o : Option LedgerDirection) (s : World)
    (t' : WagerTransaction) (d : Decision) (s' : World)
    → (if misfit
          then pure {A = WagerTransaction × Decision} (t, refuse FailureCode.reference_mismatch)
          else decide_direction t ref o)
        s
      ≡ (ok (t', d), s')
    → d.kind ≡ DecisionKind.process
    → (misfit ≡ false) × Checked t ref o t' d s
fitting-Checked t ref true o s t' d s' h k = absurd (ground arith)
fitting-Checked t ref false o s t' d s' h k = (refl, decide_direction-Checked t ref o s t' d s' h k)

decide_found-Checks :
    (t ref : WagerTransaction) (s : World) (t' : WagerTransaction) (d : Decision) (s' : World)
    → decide_found t ref ref.status s ≡ (ok (t', d), s')
    → d.kind ≡ DecisionKind.process
    → Checks t ref t' d s
decide_found-Checks t ref s t' d s' h k = go ref.status refl h
  where
    go :
        (st : Status)
        → ref.status ≡ st
        → decide_found t ref st s ≡ (ok (t', d), s')
        → Checks t ref t' d s
    go Status.pending e h = absurd (ground arith)
    go Status.pending_reference e h = absurd (ground arith)
    go Status.rejected e h = absurd (ground arith)
    go Status.failed e h = absurd (ground arith)
    go Status.processed e h =
        let (fit, (direction, unreversed, resolved)) = fitting-Checked t ref _ _ s t' d s' h k in
        record {
          status = (λ x. cc, λ x. cc, λ x. cc, λ x. cc);
          fits = fit;
          direction = direction;
          unreversed = unreversed;
          resolved = resolved;
        }
    go (Status.other o) e h =
        let (fit, (direction, unreversed, resolved)) = fitting-Checked t ref _ _ s t' d s' h k in
        record {
          status = (λ x. cc, λ x. cc, λ x. cc, λ x. cc);
          fits = fit;
          direction = direction;
          unreversed = unreversed;
          resolved = resolved;
        }

decide_reference-Checks :
    (t : WagerTransaction) (o : Option WagerTransaction) (s : World) (t' : WagerTransaction)
    (d : Decision) (s' : World)
    → decide_reference t o s ≡ (ok (t', d), s')
    → d.kind ≡ DecisionKind.process
    → (ref : WagerTransaction) × (o ≡ some ref) × Checks t ref t' d s
decide_reference-Checks t none s t' d s' h k = absurd (ground arith)
decide_reference-Checks t (some ref) s t' d s' h k =
    (ref, refl, decide_found-Checks t ref s t' d s' h k)

-- The lookup of the reference has found it, and the checks have held.
pub decide_reversal-Checks :
    (t : WagerTransaction) (s : World) (t' : WagerTransaction) (d : Decision) (s' : World)
    → decide_reversal t s ≡ (ok (t', d), s')
    → d.kind ≡ DecisionKind.process
    → (ref : WagerTransaction) × (s₁ : World) × (optional (find_reference t) s
        ≡ (ok (some ref), s₁))
      × Checks t ref t' d s₁
unfolding decide_reversal
decide_reversal-Checks t s t' d s' h k =
    >>=-elim (optional (find_reference t)) _ s h λ o s₁ read h₁.
      let (ref, found, checks) = decide_reference-Checks t o s₁ t' d s' h₁ k in
      (ref, s₁, rw (← found) read, checks)
