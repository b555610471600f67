-- ===== src/App/ResolveReferences/Reconciles.antt =====
-- internal/app/resolve_references.go: each transaction of a turn keeps every stored balance equal to the
-- ledger's totals, whatever of it fails.
use jungle.Base.{◌≡◌, refl, arith, Bool, true, false, not, inl, inr, Bool-cases}
use jungle.Values.{Time}
use jungle.Money.Arithmetic.{IsMoney}
use jungle.Wallet.{Wallet}
use jungle.Wagertx.{WagerTransaction, mark_failed}
use jungle.Wagertx.Constants.{FailureCode}
use jungle.Result.{ok}
use jungle.Store.Action.{Action, World, within, ◌>>=◌}
use jungle.Store.Action.Laws.{>>=-elim, lift-elim, pure-eq-ok, within-keeps}
use jungle.Store.Wallets.{get_wallet}
use jungle.Store.Transactions.{get_by_id}
use jungle.Store.TransactionWrites.{update_transaction}
use jungle.Store.Effects.{scan_one-db, get_wallet-db}
use jungle.Store.Reconciled.{IsReconciled}
use jungle.Store.References.{PendingReferenceRecord, is_awaiting}
use jungle.Store.References.Writes.{
  get_by_id-IsMoney, update_transaction-amounts, record_reference_attempt-db,
  reschedule_rows-amounts,
}
use jungle.App.Decide.{Decision, DecisionKind, decide_reversal}
use jungle.App.Settle.Booking.{SavesTransaction}
use jungle.App.Settle.Reconciles.{
  IsStored, SameFunds, IsReconciled-SameFunds, recorded-SameFunds, reject-SameFunds,
  settle-IsReconciled,
}
use jungle.App.ProcessWager.Reads.{decide_reversal-Decided, get_wallet-IsStored, read-db}
use jungle.App.ResolveReferences.{
  ReferencePolicy, Turn, meta_at, is_exhausted, try_later, give_up, carry_out, settle_decided,
  settle_awaiting, settle_read, settle_one, fail_awaiting, fail_read, fail_body,
}

pub update_transaction-SavesTransaction : SavesTransaction update_transaction
update_transaction-SavesTransaction = update_transaction-amounts

mark_failed-money :
    (code : FailureCode) (now : Time) (t t' : WagerTransaction)
    → mark_failed code now t ≡ ok t'
    → t'.money ≡ t.money
unfolding mark_failed
mark_failed-money code now t t' h = ground arith

module _ (policy : ReferencePolicy) (turn : Turn) (rec : PendingReferenceRecord) where
  try_later-SameFunds :
      (t : WagerTransaction) (s : World) (b : Bool) (s' : World)
      → try_later policy turn rec t s ≡ (ok b, s')
      → SameFunds s.db s'.db
  try_later-SameFunds t s b s' h = >>=-elim _ _ s h λ _ s₁ noted h₁.
      let (_, end) = pure-eq-ok false s₁ h₁ in
      let d = record_reference_attempt-db _ _ _ s s₁ noted in
      (
        rw (end, d) refl,
        rw (end, d) refl,
        λ a. rw (end, d) (reschedule_rows-amounts _ _ _ s.db.transactions a),
        rw (end, d) refl,
      )

  give_up-SameFunds :
      (t : WagerTransaction) (w : Wallet) (s : World) (b : Bool) (s' : World)
      → IsMoney t.money
      → give_up policy turn rec t w s ≡ (ok b, s')
      → SameFunds s.db s'.db
  give_up-SameFunds t w s b s' money h = >>=-elim _ _ s h λ r s₁ rejected h₁.
      let (_, end) = pure-eq-ok true s₁ h₁ in
      rw end (
        reject-SameFunds turn.ids (meta_at turn.correlation_id turn.now) turn.now update_transaction
          update_transaction-SavesTransaction t w FailureCode.reference_not_found s r s₁ money
          rejected)

  carry_out-IsReconciled :
      (t : WagerTransaction) (w : Wallet) (d : Decision) (s : World) (b : Bool) (s' : World)
      → IsReconciled s.db
      → IsStored t.wallet_id w s.db
      → IsMoney t.money
      → carry_out policy turn rec t w d s ≡ (ok b, s')
      → IsReconciled s'.db
  carry_out-IsReconciled t w d s b s' inv stored money h = >>=-elim _ _ s h λ r s₁ settled h₁.
      let (_, end) = pure-eq-ok true s₁ h₁ in
      rw end (
        settle-IsReconciled turn.ids (meta_at turn.correlation_id turn.now) turn.now
          update_transaction update_transaction-SavesTransaction t w d s r s₁ inv stored money
          settled)

  settle_decided-IsReconciled :
      (t : WagerTransaction) (w : Wallet) (d : Decision) (k : DecisionKind) (s : World) (b : Bool)
      (s' : World)
      → IsReconciled s.db
      → IsStored t.wallet_id w s.db
      → IsMoney t.money
      → settle_decided policy turn rec t w d k s ≡ (ok b, s')
      → IsReconciled s'.db
  settle_decided-IsReconciled t w d DecisionKind.process s b s' inv stored money h =
      carry_out-IsReconciled t w d s b s' inv stored money h
  settle_decided-IsReconciled t w d DecisionKind.reject s b s' inv stored money h =
      carry_out-IsReconciled t w d s b s' inv stored money h
  settle_decided-IsReconciled t w d DecisionKind.pending_reference s b s' inv stored money h =
      elim (Bool-cases (not (is_exhausted policy turn rec))) [
        | inl again ↦
            IsReconciled-SameFunds s.db s'.db (try_later-SameFunds t s b s' (rw again at h)) inv
        | inr over ↦
            IsReconciled-SameFunds s.db s'.db (give_up-SameFunds t w s b s' money (rw over at h))
              inv
      ]

  settle_awaiting-IsReconciled :
      (t : WagerTransaction) (s : World) (b : Bool) (s' : World)
      → IsReconciled s.db
      → IsMoney t.money
      → settle_awaiting policy turn rec t s ≡ (ok b, s')
      → IsReconciled s'.db
  unfolding settle_awaiting
  settle_awaiting-IsReconciled t s b s' inv money h =
      >>=-elim (get_wallet t.wallet_id) _ s h λ w s₁ read h₁.
        let same = read-db (get_wallet t.wallet_id) s read (get_wallet-db t.wallet_id s) in
        let stored = get_wallet-IsStored t.wallet_id s w s₁ read in
        >>=-elim (decide_reversal t) _ s₁ h₁ λ x s₂ decided h₂.
          let (kept, (amount, _, home, _)) = decide_reversal-Decided t s₁ x.0 x.1 s₂ decided in
          settle_decided-IsReconciled x.0 w x.1 x.1.kind s₂ b s' (rw (kept, same) inv)
            (rw (home, kept, same) stored) (rw amount money) h₂

  settle_read-IsReconciled :
      (t : WagerTransaction) (s : World) (b : Bool) (s' : World)
      → IsReconciled s.db
      → IsMoney t.money
      → settle_read policy turn rec t s ≡ (ok b, s')
      → IsReconciled s'.db
  settle_read-IsReconciled t s b s' inv money h = elim (Bool-cases (not (is_awaiting t.status))) [
    | inl moved ↦ let (_, end) = pure-eq-ok false s (rw moved at h) in rw end inv
    | inr awaits ↦ settle_awaiting-IsReconciled t s b s' inv money (rw awaits at h)
  ]

  fail_awaiting-SameFunds :
      (t : WagerTransaction) (s : World) (b : Bool) (s' : World)
      → IsMoney t.money
      → fail_awaiting policy turn rec t s ≡ (ok b, s')
      → SameFunds s.db s'.db
  unfolding fail_awaiting
  fail_awaiting-SameFunds t s b s' money h = lift-elim _ _ s h λ t' marked h₁.
      recorded-SameFunds update_transaction update_transaction-SavesTransaction t' _ true s b s'
        (rw (mark_failed-money FailureCode.infrastructure_failure turn.failed_at t t' marked) money)
        h₁

  fail_read-IsReconciled :
      (t : WagerTransaction) (s : World) (b : Bool) (s' : World)
      → IsReconciled s.db
      → IsMoney t.money
      → fail_read policy turn rec t s ≡ (ok b, s')
      → IsReconciled s'.db
  fail_read-IsReconciled t s b s' inv money h = elim (Bool-cases (not (is_awaiting t.status))) [
    | inl moved ↦ let (_, end) = pure-eq-ok false s (rw moved at h) in rw end inv
    | inr awaits ↦
        IsReconciled-SameFunds s.db s'.db (fail_awaiting-SameFunds t s b s' money (rw awaits at h))
          inv
  ]

  -- A transaction of the database that first reads the record's wager transaction.
  reread-IsReconciled :
      (body : WagerTransaction → Action Bool)
      → ((t : WagerTransaction) (s : World) (b : Bool) (s' : World)
          → IsReconciled s.db
          → IsMoney t.money
          → body t s ≡ (ok b, s')
          → IsReconciled s'.db)
      → (s : World) → IsReconciled s.db
      → IsReconciled (within (do t ← get_by_id rec.transaction.id; body t) s).1.db
  reread-IsReconciled body keeps s inv = within-keeps IsReconciled _ s inv λ s₁ b s₂ inv₁ ran.
      >>=-elim (get_by_id rec.transaction.id) body s₁ ran λ t s₃ read h.
        let same = read-db (get_by_id rec.transaction.id) s₁ read (scan_one-db _ s₁) in
        keeps t s₃ b s₂ (rw same inv₁) (get_by_id-IsMoney rec.transaction.id s₁ t s₃ inv₁.2 read) h

  pub settle_one-IsReconciled :
      (s : World) → IsReconciled s.db → IsReconciled (settle_one policy turn rec s).1.db
  unfolding settle_one
  settle_one-IsReconciled s inv =
      reread-IsReconciled (settle_read policy turn rec) settle_read-IsReconciled s inv

  pub fail_body-IsReconciled :
      (s : World) → IsReconciled s.db → IsReconciled (within (fail_body policy turn rec) s).1.db
  fail_body-IsReconciled s inv =
      reread-IsReconciled (fail_read policy turn rec) fail_read-IsReconciled s inv
