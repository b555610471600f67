-- ===== src/App/ProcessWager/Reversals.antt =====
-- internal/app/process_wager.go: an execution leaves no transaction with two successful reversals.
use jungle.Base.{◌≡◌, refl, arith, ap, true, not, inl, inr, Bool-cases}
use jungle.Values.{Uuid, Time}
use jungle.Result.{ok}
use jungle.Wallet.{Wallet}
use jungle.Wagertx.{WagerTransaction}
use jungle.Wagertx.Constants.{requires_reference}
use jungle.Store.Action.{World}
use jungle.Store.Action.Laws.{>>=-elim, lift-elim, pure-eq-ok}
use jungle.Store.Transactions
use jungle.Store.Transactions.{is_reversal_of}
use jungle.Store.TransactionWrites.{insert_transaction}
use jungle.Store.Effects.{insert_transaction-db, insert_inbox-db}
use jungle.Store.Reversals.{IsReversedOnce, IsReversedOnce-Adds, Adds-weaken, reversals-append}
use jungle.App.Decide.{decide}
use jungle.App.Decide.Unreversed.{decide-IsFirst}
use jungle.App.Settle.{NewIds, ProcessWagerResult}
use jungle.App.Settle.Reversals.{SavesReversal, saved_reversal, decided_reversal, settle-Adds}
use jungle.App.ProcessWager.{
  ProcessWagerCommand, record_inbox, has_message, process_new, meta_of, process,
}
use jungle.App.ProcessWager.Branches.{process-holds}
use jungle.App.ProcessWager.Reads.{decide-Decided}
use jungle.App.ProcessWager.Reconciles.{insert_transaction-SavesTransaction}

row_of-reversal :
    (now : Time) (t : WagerTransaction) (id : Uuid)
    → is_reversal_of id (Transactions.row_of now t) ≡ true
    → saved_reversal requires_reference t id ≡ true
unfolding Transactions.row_of
row_of-reversal now t id h = ground arith

pub insert_transaction-SavesReversal : SavesReversal requires_reference insert_transaction
insert_transaction-SavesReversal t s s' h =
    let d = insert_transaction-db t s s' h in
    Adds-weaken (λ id. is_reversal_of id (Transactions.row_of s.db_now t))
      (saved_reversal requires_reference t) s.db s'.db (row_of-reversal s.db_now t)
      λ id. rw d (reversals-append id s.db.transactions (Transactions.row_of s.db_now t))

record_inbox-transactions :
    (cmd : ProcessWagerCommand) (id : Uuid) (now : Time) (s s' : World)
    → record_inbox cmd id now s ≡ (ok tt, s')
    → s'.db.transactions ≡ s.db.transactions
unfolding record_inbox
record_inbox-transactions cmd id now s s' h = elim (Bool-cases (not (has_message cmd))) [
  | inl silent ↦ let (_, end) = pure-eq-ok tt s (rw silent at h) in rw end refl
  | inr told ↦ ap (λ x. x.transactions) (insert_inbox-db _ s s' (rw told at h))
]

module _ (ids : NewIds) (now : Time) (cmd : ProcessWagerCommand) where
  process_new-IsReversedOnce :
      (w : Wallet) (s : World) (r : ProcessWagerResult) (s' : World)
      → IsReversedOnce s.db
      → process_new ids now cmd w s ≡ (ok r, s')
      → IsReversedOnce s'.db
  unfolding process_new
  process_new-IsReversedOnce w s r s' once h = lift-elim _ _ s h λ t made h₁.
      >>=-elim (decide t w) _ s h₁ λ x s₁ decided h₂. >>=-elim _ _ s₁ h₂ λ outcome s₂ settled h₃.
        >>=-elim _ _ s₂ h₃ λ _ s₃ noted h₄.
          let (same, _) = decide-Decided t w s x.0 x.1 s₁ decided in
          let adds =
            settle-Adds requires_reference ids (meta_of ids now cmd) now insert_transaction
              insert_transaction-SavesTransaction insert_transaction-SavesReversal x.0 w x.1 s₁
              outcome s₂ settled in
          let first = decide-IsFirst t w s x.0 x.1 s₁ decided in
          let after =
            IsReversedOnce-Adds (decided_reversal requires_reference x.0 x.1.kind) s₁.db s₂.db adds
              (rw same first) (rw same once) in
          let (_, end) = pure-eq-ok outcome s₃ h₄ in
          λ id.
            rw (end, record_inbox-transactions cmd outcome.transaction.id now s₂ s₃ noted)
              (after id)

  pub process-IsReversedOnce :
      (s : World) (r : ProcessWagerResult) (s' : World)
      → IsReversedOnce s.db
      → process ids now cmd s ≡ (ok r, s')
      → IsReversedOnce s'.db
  process-IsReversedOnce =
      process-holds IsReversedOnce ids now cmd
        (λ target s s' once noted id.
          rw (record_inbox-transactions cmd target now s s' noted) (once id))
        λ w s r s' once stored h. process_new-IsReversedOnce w s r s' once h
