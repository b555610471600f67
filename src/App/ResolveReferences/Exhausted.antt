-- ===== src/App/ResolveReferences/Exhausted.antt =====
-- internal/app/resolve_references.go: a transaction that has moved is settled for good, and one
-- whose retries are used up moves.
use jungle.Base.{
  ◌≡◌, ◌∙◌, refl, ap, arith, Bool, true, false, Option, some, ◌⊎◌, ◌≢◌, inl, inr, Bool-cases,
}
use jungle.Values.{Uuid}
use jungle.Wallet.{Wallet}
use jungle.Event.{Meta}
use jungle.Wagertx.{WagerTransaction}
use jungle.Wagertx.Constants.{FailureCode}
use jungle.Result.{ok}
use jungle.Store.Tables.{Db, TransactionRow}
use jungle.Store.Action.{World, ◌>>=◌}
use jungle.Store.Action.Laws.{>>=-elim, pure-eq-ok, within-ok}
use jungle.Store.Wallets.{get_wallet}
use jungle.Store.Transactions.{find_first, has_id, get_by_id}
use jungle.Store.References.{PendingReferenceRecord, is_awaiting}
use jungle.Store.References.Writes.{get_by_id-row}
use jungle.App.Decide.{Decision, DecisionKind, decide_reversal}
use jungle.App.Settle.{settle}
use jungle.App.ProcessWager.Reads.{decide_reversal-Decided}
use jungle.App.ResolveReferences.{
  ReferencePolicy, Turn, meta_at, is_exhausted, carry_out, settle_decided, settle_awaiting,
  settle_read, settle_one,
}
use jungle.App.ResolveReferences.Settled.{
  IsSettled, IsSettled-transactions, reject-IsSettled, settle_process-IsSettled,
}

-- The first row with the id awaits its reference.
abbrev pub IsAwaiting : Uuid → Db → Type 0
IsAwaiting id db =
    (r : TransactionRow) × (find_first (has_id id) db.transactions ≡ some r)
    × (is_awaiting r.status ≡ true)

same_row : (o : Option TransactionRow) (a b : TransactionRow) → o ≡ some a → o ≡ some b → a ≡ b
same_row o a b p q = cc

module _ (policy : ReferencePolicy) (turn : Turn) (rec : PendingReferenceRecord) where
  abbrev meta : Meta
  meta = meta_at turn.correlation_id turn.now

  -- What a turn leaves behind: either the transaction is settled and counted, or it is to be tried
  -- again, which happens only where the retries are not used up.
  abbrev Outcome : Uuid → Bool → Db → Type 0
  Outcome id moved db =
      ((moved ≡ true) × IsSettled id db)
      ⊎ ((moved ≡ false) × (is_exhausted policy turn rec ≡ false))

  carry_out-IsSettled :
      (t : WagerTransaction) (w : Wallet) (d : Decision) (k : DecisionKind) (s : World) (b : Bool)
      (s' : World)
      → d.kind ≡ k
      → k ≢ DecisionKind.pending_reference
      → carry_out policy turn rec t w d s ≡ (ok b, s')
      → (b ≡ true) × IsSettled t.id s'.db
  unfolding settle
  carry_out-IsSettled t w d DecisionKind.pending_reference s b s' e other h = absurd (other refl)
  carry_out-IsSettled t w d DecisionKind.reject s b s' e other h =
      >>=-elim _ _ s h λ r s₁ settled h₁.
        let (done, end) = pure-eq-ok true s₁ h₁ in
        (
          done,
          rw end (reject-IsSettled turn.ids meta turn.now t w d.failure s r s₁ (rw e at settled)),
        )
  carry_out-IsSettled t w d DecisionKind.process s b s' e other h =
      >>=-elim _ _ s h λ r s₁ settled h₁.
        let (done, end) = pure-eq-ok true s₁ h₁ in
        (
          done,
          rw end (settle_process-IsSettled turn.ids meta turn.now t w d s r s₁ (rw e at settled)),
        )

  settle_decided-Outcome :
      (t : WagerTransaction) (w : Wallet) (d : Decision) (k : DecisionKind) (s : World) (b : Bool)
      (s' : World)
      → d.kind ≡ k
      → settle_decided policy turn rec t w d k s ≡ (ok b, s')
      → Outcome t.id b s'.db
  settle_decided-Outcome t w d DecisionKind.process s b s' e h =
      inl (carry_out-IsSettled t w d DecisionKind.process s b s' e (λ x. cc) h)
  settle_decided-Outcome t w d DecisionKind.reject s b s' e h =
      inl (carry_out-IsSettled t w d DecisionKind.reject s b s' e (λ x. cc) h)
  settle_decided-Outcome t w d DecisionKind.pending_reference s b s' e h =
      elim (Bool-cases (is_exhausted policy turn rec)) [
        | inl over ↦ >>=-elim _ _ s (rw over at h) λ r s₁ rejected h₁.
            let (done, end) = pure-eq-ok true s₁ h₁ in
            inl (
              done,
              rw end (
                  reject-IsSettled turn.ids meta turn.now t w FailureCode.reference_not_found s r s₁
                    rejected),
            )
        | inr again ↦
            >>=-elim _ _ s (rw again at h)
              λ r s₁ noted h₁. let (later, _) = pure-eq-ok false s₁ h₁ in inr (later, again)
      ]

  settle_awaiting-Outcome :
      (t : WagerTransaction) (s : World) (b : Bool) (s' : World)
      → settle_awaiting policy turn rec t s ≡ (ok b, s')
      → Outcome t.id b s'.db
  unfolding settle_awaiting
  settle_awaiting-Outcome t s b s' h = >>=-elim (get_wallet t.wallet_id) _ s h λ w s₁ read h₁.
      >>=-elim (decide_reversal t) _ s₁ h₁ λ x s₂ decided h₂.
        let (_, (_, own, _, _)) = decide_reversal-Decided t s₁ x.0 x.1 s₂ decided in
        rw (← own) (settle_decided-Outcome x.0 w x.1 x.1.kind s₂ b s' refl h₂)

  moved-IsSettled :
      (id : Uuid) (b : Bool) (db : Db)
      → is_exhausted policy turn rec ≡ true
      → Outcome id b db
      → (b ≡ true) × IsSettled id db
  moved-IsSettled id b db over (inl done) = done
  moved-IsSettled id b db over (inr (_, again)) = absurd (ground (arith, over, again))

  read_turn-IsSettled :
      (s : World) (b : Bool) (s' : World)
      → is_exhausted policy turn rec ≡ true
      → IsAwaiting rec.transaction.id s.db
      → (do t ← get_by_id rec.transaction.id; settle_read policy turn rec t) s ≡ (ok b, s')
      → (b ≡ true) × IsSettled rec.transaction.id s'.db
  read_turn-IsSettled s b s' over (r₀, found₀, awaiting) h =
      >>=-elim (get_by_id rec.transaction.id) (settle_read policy turn rec) s h λ t s₁ read h₁.
        let (r, found, own, status) = get_by_id-row rec.transaction.id s t s₁ read in
        let same = same_row _ r r₀ found found₀ in
        let awaited : is_awaiting t.status ≡ true = rw (status, same) awaiting in
        let (done, settled) =
          moved-IsSettled t.id b s'.db over
            (settle_awaiting-Outcome t s₁ b s' (rw awaited at h₁)) in
        (done, rw (← own) settled)

  -- A turn on a transaction that the database still has as awaiting its reference, which succeeds
  -- when the attempts or the time for retries are used up, moves the transaction: it is counted, and
  -- its row is in a status that nothing changes.
  pub settle_one-exhausted :
      (s : World) (b : Bool) (s' : World)
      → is_exhausted policy turn rec ≡ true
      → IsAwaiting rec.transaction.id s.db
      → settle_one policy turn rec s ≡ (ok b, s')
      → (b ≡ true) × IsSettled rec.transaction.id s'.db
  unfolding settle_one
  settle_one-exhausted s b s' over (r₀, found₀, awaiting) h =
      let (s₁, s₂, begin, ran, end) = within-ok _ s b s' h in
      let found₁ = ap (λ x. find_first (has_id rec.transaction.id) x.transactions) begin ∙ found₀ in
      let (done, settled) = read_turn-IsSettled s₁ b s₂ over (r₀, found₁, awaiting) ran in
      (
        done,
        IsSettled-transactions rec.transaction.id s₂.db s'.db (ap (λ x. x.transactions) end)
            settled,
      )
