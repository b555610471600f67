-- ===== src/App/ResolveReferences/Reversals.antt =====
-- internal/app/resolve_references.go: a turn leaves no transaction with two successful reversals.
use jungle.Base.{◌≡◌, arith, Bool, true, false, not, inl, inr, Bool-cases}
use jungle.Values.{Time}
use jungle.Result.{ok}
use jungle.Wallet.{Wallet}
use jungle.Wagertx.{WagerTransaction, is_processed, mark_failed, transition_to}
use jungle.Wagertx.Constants.{FailureCode, Kind}
use jungle.Store.Action.{World, Action, within, ◌>>=◌}
use jungle.Store.Action.Laws.{>>=-elim, lift-elim, pure-eq-ok, within-keeps}
use jungle.Store.Wallets.{get_wallet}
use jungle.Store.Transactions.{get_by_id, is_reversal_of}
use jungle.Store.TransactionWrites.{update_transaction, updated_row}
use jungle.Store.Effects.{scan_one-db, get_wallet-db}
use jungle.Store.References.{PendingReferenceRecord, is_awaiting}
use jungle.Store.References.Writes.{update_transaction-db, record_reference_attempt-db}
use jungle.Store.Reversals.{
  IsReversedOnce, IsReversedOnce-Adds, Adds-weaken, reversals-replace_row,
  reversals-reschedule_rows,
}
use jungle.App.Decide.{Decision, DecisionKind, decide_reversal}
use jungle.App.Decide.Unreversed.{IsFirst, decide_reversal-IsFirst}
use jungle.App.Settle.Reversals.{
  SavesReversal, saved_reversal, decided_reversal, no_reversal, settle-Adds, reject-Adds,
  unprocessed-Adds,
}
use jungle.App.ProcessWager.Reads.{decide_reversal-Decided, read-db}
use jungle.App.ResolveReferences.{
  ReferencePolicy, Turn, meta_at, is_exhausted, carry_out, settle_decided, settle_awaiting,
  settle_read, settle_one, fail_awaiting, fail_read, fail_body,
}
use jungle.App.ResolveReferences.Reconciles.{update_transaction-SavesTransaction}

-- An update keeps the kind of the row, whatever kind the transaction is.
abbrev any_kind : Kind → Bool
any_kind k = true

update_transaction-SavesReversal : SavesReversal any_kind update_transaction
update_transaction-SavesReversal t s s' h =
    let (r, found, d) = update_transaction-db t s s' h in
    Adds-weaken (λ id. is_reversal_of id (updated_row t r)) (saved_reversal any_kind t) s.db s'.db
      (λ id reversal. ground (arith, reversal))
      λ id. rw d (reversals-replace_row id (updated_row t r) s.db.transactions)

mark_failed-status :
    (code : FailureCode) (now : Time) (t t' : WagerTransaction)
    → mark_failed code now t ≡ ok t'
    → is_processed t'.status ≡ false
unfolding mark_failed transition_to
mark_failed-status code now t t' h = ground arith

module _ (policy : ReferencePolicy) (turn : Turn) (rec : PendingReferenceRecord) where
  carry_out-IsReversedOnce :
      (t : WagerTransaction) (w : Wallet) (d : Decision) (s : World) (b : Bool) (s' : World)
      → IsReversedOnce s.db
      → IsFirst any_kind t d s
      → carry_out policy turn rec t w d s ≡ (ok b, s')
      → IsReversedOnce s'.db
  carry_out-IsReversedOnce t w d s b s' once first h = >>=-elim _ _ s h λ r s₁ settled h₁.
      let (_, end) = pure-eq-ok true s₁ h₁ in
      rw end (
        IsReversedOnce-Adds (decided_reversal any_kind t d.kind) s.db s₁.db
          (settle-Adds any_kind turn.ids (meta_at turn.correlation_id turn.now) turn.now
            update_transaction update_transaction-SavesTransaction update_transaction-SavesReversal
            t w d s r s₁ settled)
          first once)

  settle_decided-IsReversedOnce :
      (t : WagerTransaction) (w : Wallet) (d : Decision) (k : DecisionKind) (s : World) (b : Bool)
      (s' : World)
      → IsReversedOnce s.db
      → IsFirst any_kind t d s
      → settle_decided policy turn rec t w d k s ≡ (ok b, s')
      → IsReversedOnce s'.db
  settle_decided-IsReversedOnce t w d DecisionKind.process s b s' once first h =
      carry_out-IsReversedOnce t w d s b s' once first h
  settle_decided-IsReversedOnce t w d DecisionKind.reject s b s' once first h =
      carry_out-IsReversedOnce t w d s b s' once first h
  settle_decided-IsReversedOnce t w d DecisionKind.pending_reference s b s' once first h =
      elim (Bool-cases (not (is_exhausted policy turn rec))) [
        | inl again ↦ >>=-elim _ _ s (rw again at h) λ _ s₁ noted h₁.
            let (_, end) = pure-eq-ok false s₁ h₁ in
            let d₁ = record_reference_attempt-db _ _ _ s s₁ noted in
            λ id. rw (end, d₁, reversals-reschedule_rows id) (once id)
        | inr over ↦ >>=-elim _ _ s (rw over at h) λ r s₁ rejected h₁.
            let (_, end) = pure-eq-ok true s₁ h₁ in
            rw end (
              IsReversedOnce-Adds no_reversal s.db s₁.db
                (reject-Adds any_kind turn.ids (meta_at turn.correlation_id turn.now) turn.now
                  update_transaction update_transaction-SavesTransaction
                  update_transaction-SavesReversal t w FailureCode.reference_not_found s r s₁
                  rejected)
                (λ id no. cc) once)
      ]

  settle_awaiting-IsReversedOnce :
      (t : WagerTransaction) (s : World) (b : Bool) (s' : World)
      → IsReversedOnce s.db
      → settle_awaiting policy turn rec t s ≡ (ok b, s')
      → IsReversedOnce s'.db
  unfolding settle_awaiting
  settle_awaiting-IsReversedOnce t s b s' once h =
      >>=-elim (get_wallet t.wallet_id) _ s h λ w s₁ read h₁.
        let same = read-db (get_wallet t.wallet_id) s read (get_wallet-db t.wallet_id s) in
        >>=-elim (decide_reversal t) _ s₁ h₁ λ x s₂ decided h₂.
          let (kept, _) = decide_reversal-Decided t s₁ x.0 x.1 s₂ decided in
          settle_decided-IsReversedOnce x.0 w x.1 x.1.kind s₂ b s' (rw (kept, same) once)
            (rw kept (decide_reversal-IsFirst any_kind t s₁ x.0 x.1 s₂ decided)) h₂

  settle_read-IsReversedOnce :
      (t : WagerTransaction) (s : World) (b : Bool) (s' : World)
      → IsReversedOnce s.db
      → settle_read policy turn rec t s ≡ (ok b, s')
      → IsReversedOnce s'.db
  settle_read-IsReversedOnce t s b s' once h = elim (Bool-cases (not (is_awaiting t.status))) [
    | inl moved ↦ let (_, end) = pure-eq-ok false s (rw moved at h) in rw end once
    | inr awaits ↦ settle_awaiting-IsReversedOnce t s b s' once (rw awaits at h)
  ]

  fail_read-IsReversedOnce :
      (t : WagerTransaction) (s : World) (b : Bool) (s' : World)
      → IsReversedOnce s.db
      → fail_read policy turn rec t s ≡ (ok b, s')
      → IsReversedOnce s'.db
  unfolding fail_awaiting
  fail_read-IsReversedOnce t s b s' once h = elim (Bool-cases (not (is_awaiting t.status))) [
    | inl moved ↦ let (_, end) = pure-eq-ok false s (rw moved at h) in rw end once
    | inr awaits ↦ lift-elim _ _ s (rw awaits at h) λ t' marked h₁.
        IsReversedOnce-Adds no_reversal s.db s'.db
          (unprocessed-Adds any_kind update_transaction update_transaction-SavesReversal t' _ true s
            b s' (mark_failed-status FailureCode.infrastructure_failure turn.failed_at t t' marked)
            h₁)
          (λ id no. cc) once
  ]

  -- A transaction of the database that first reads the record's wager transaction.
  reread-IsReversedOnce :
      (body : WagerTransaction → Action Bool)
      → ((t : WagerTransaction) (s : World) (b : Bool) (s' : World)
          → IsReversedOnce s.db
          → body t s ≡ (ok b, s')
          → IsReversedOnce s'.db)
      → (s : World) → IsReversedOnce s.db
      → IsReversedOnce (within (do t ← get_by_id rec.transaction.id; body t) s).1.db
  reread-IsReversedOnce body keeps s once =
      within-keeps IsReversedOnce _ s once λ s₁ b s₂ once₁ ran.
        >>=-elim (get_by_id rec.transaction.id) body s₁ ran λ t s₃ read h.
          let same = read-db (get_by_id rec.transaction.id) s₁ read (scan_one-db _ s₁) in
          keeps t s₃ b s₂ (rw same once₁) h

  pub settle_one-IsReversedOnce :
      (s : World) → IsReversedOnce s.db → IsReversedOnce (settle_one policy turn rec s).1.db
  unfolding settle_one
  settle_one-IsReversedOnce =
      reread-IsReversedOnce (settle_read policy turn rec) settle_read-IsReversedOnce

  pub fail_body-IsReversedOnce :
      (s : World) → IsReversedOnce s.db → IsReversedOnce (within (fail_body policy turn rec) s).1.db
  fail_body-IsReversedOnce =
      reread-IsReversedOnce (fail_read policy turn rec) fail_read-IsReversedOnce
