-- ===== src/App/ProcessWager/Reconciles.antt =====
-- internal/app/process_wager.go: `Execute` keeps the balances reconciled, and is all or nothing.
use jungle.Base.{All-append, ◌≡◌, ◌∙◌, refl, ap, sym, Option, none, some, not, inl, inr, Bool-cases}
use jungle.Values.{Uuid, Time}
use jungle.Result.{Error, ok, err}
use jungle.Money.Arithmetic.{IsMoney}
use jungle.Wallet.{Wallet}
use jungle.Wagertx.{WagerTransaction, new_external, NewExternalParams}
use jungle.Wagertx.Invariant.{new_external_facts}
use jungle.Store.Action.{World}
use jungle.Store.Action.Laws.{>>=-elim, lift-elim, pure-eq-ok, >>=-err, within-err, within-ok}
use jungle.Store.Transactions.{get_by_id, get_by_idempotency_key, get_by_provider_external_id}
use jungle.Int64.{IsInt64}
use jungle.Store.Transactions
use jungle.Store.TransactionWrites.{insert_transaction}
use jungle.Store.Effects.{insert_inbox-db, insert_transaction-db}
use jungle.Store.Reconciled.{IsReconciled}
use jungle.App.Decide.{decide}
use jungle.App.Settle.{ProcessWagerResult, NewIds}
use jungle.App.Settle.Booking.{SavesTransaction}
use jungle.App.Settle.Reconciles.{IsStored, SameFunds, IsReconciled-SameFunds, settle-IsReconciled}
use jungle.App.ProcessWager.{
  ProcessWagerCommand, meta_of, has_message, fast_replay, record_inbox, external_params,
  process_new, process, or_process, execute,
}
use jungle.App.ProcessWager.Branches.{process-holds, fast_replay-db}
use jungle.App.ProcessWager.Reads.{decide-Decided, read-db}

pub row_of-amount :
    (now : Time) (t : WagerTransaction)
    → IsMoney t.money
    → IsInt64 (Transactions.row_of now t).amount_minor_units
unfolding Transactions.row_of
row_of-amount now t money = money

pub insert_transaction-SavesTransaction : SavesTransaction insert_transaction
insert_transaction-SavesTransaction t s s' h = (
  _,
  insert_transaction-db t s s' h,
  λ amounts money. All-append _ s.db.transactions _ amounts (row_of-amount s.db_now t money, tt),
)

record_inbox-SameFunds :
    (cmd : ProcessWagerCommand) (id : Uuid) (now : Time) (s s' : World)
    → record_inbox cmd id now s ≡ (ok tt, s')
    → SameFunds s.db s'.db
unfolding record_inbox
record_inbox-SameFunds cmd id now s s' h = elim (Bool-cases (not (has_message cmd))) [
  | inl silent ↦
      let (_, end) = pure-eq-ok tt s (rw silent at h) in
      (rw end refl, rw end refl, λ a. rw end a, rw end refl)
  | inr told ↦
      let d = insert_inbox-db _ s s' (rw told at h) in
      (ap (λ x. x.wallets) d, ap (λ x. x.ledger) d, λ a. rw d a, ap (λ x. x.journal) d)
]

new_external-money :
    (p : NewExternalParams) (t : WagerTransaction) → new_external p ≡ ok t → t.money ≡ p.money
new_external-money p t h = ap (λ x. x.money) (sym (new_external_facts p t h).0)

new_external-wallet_id :
    (p : NewExternalParams) (t : WagerTransaction)
    → new_external p ≡ ok t
    → t.wallet_id ≡ p.wallet_id
new_external-wallet_id p t h = ap (λ x. x.wallet_id) (sym (new_external_facts p t h).0)

module _ (ids : NewIds) (now : Time) (cmd : ProcessWagerCommand) (money : IsMoney cmd.money) where
  process_new-IsReconciled :
      (w : Wallet) (s : World) (r : ProcessWagerResult) (s' : World)
      → IsReconciled s.db
      → IsStored cmd.wallet_id w s.db
      → process_new ids now cmd w s ≡ (ok r, s')
      → IsReconciled s'.db
  unfolding process_new
  process_new-IsReconciled w s r s' inv stored h = lift-elim _ _ s h λ t made h₁.
      >>=-elim (decide t w) _ s h₁ λ decision s₁ decided h₂.
        >>=-elim _ _ s₁ h₂ λ outcome s₂ settled h₃. >>=-elim _ _ s₂ h₃ λ _ s₃ noted h₄.
          let (same, (spent, _, home, _)) = decide-Decided t w s decision.0 decision.1 s₁ decided in
          let amount = spent ∙ new_external-money (external_params ids now cmd) t made in
          let after =
            settle-IsReconciled ids (meta_of ids now cmd) now insert_transaction
              insert_transaction-SavesTransaction decision.0 w decision.1 s₁ outcome s₂
              (rw same inv)
              (rw (home ∙ new_external-wallet_id (external_params ids now cmd) t made, same) stored)
              (rw amount money) settled in
          let (_, end) = pure-eq-ok outcome s₃ h₄ in
          rw end (
            IsReconciled-SameFunds s₂.db s₃.db
              (record_inbox-SameFunds cmd outcome.transaction.id now s₂ s₃ noted) after)

  pub process-IsReconciled :
      (s : World) (r : ProcessWagerResult) (s' : World)
      → IsReconciled s.db
      → process ids now cmd s ≡ (ok r, s')
      → IsReconciled s'.db
  process-IsReconciled =
      process-holds IsReconciled ids now cmd
        (λ id s s' inv noted.
          IsReconciled-SameFunds s.db s'.db (record_inbox-SameFunds cmd id now s s' noted) inv)
        process_new-IsReconciled

  or_process-IsReconciled :
      (o : Option ProcessWagerResult) (s : World) (r : ProcessWagerResult) (s' : World)
      → IsReconciled s.db
      → or_process ids now cmd o s ≡ (ok r, s')
      → IsReconciled s'.db
  or_process-IsReconciled (some x) s r s' inv h = let (_, end) = pure-eq-ok x s h in rw end inv
  or_process-IsReconciled none s r s' inv h =
      let (s₁, s₂, begin, ran, end) = within-ok (process ids now cmd) s r s' h in
      rw end (process-IsReconciled s₁ r s₂ (rw begin inv) ran)

  -- A command whose amount is an int64, executed with success on reconciled tables, leaves them
  -- reconciled: every balance is still the credits of the wallet's ledger less its debits, and the
  -- journal still sums to zero, and its account for each wallet agrees with the ledger.
  pub execute-IsReconciled :
      (s : World) (r : ProcessWagerResult) (s' : World)
      → IsReconciled s.db
      → execute ids now cmd s ≡ (ok r, s')
      → IsReconciled s'.db
  unfolding execute
  execute-IsReconciled s r s' inv h = >>=-elim (fast_replay cmd) _ s h λ found s₁ read h₁.
      or_process-IsReconciled found s₁ r s'
        (rw (read-db (fast_replay cmd) s read (fast_replay-db cmd s)) inv) h₁

module _ (ids : NewIds) (now : Time) (cmd : ProcessWagerCommand) where
  or_process-err :
      (o : Option ProcessWagerResult) (s : World) (e : Error) (s' : World)
      → or_process ids now cmd o s ≡ (err e, s')
      → s'.db ≡ s.db
  or_process-err (some x) s e s' h = cc
  or_process-err none s e s' h = within-err (process ids now cmd) s e s' h

  -- An execution that returns an error has changed no table, wherever it failed.
  pub execute-err :
      (s : World) (e : Error) (s' : World) → execute ids now cmd s ≡ (err e, s') → s'.db ≡ s.db
  unfolding execute
  execute-err s e s' h =
      >>=-err (fast_replay cmd) (or_process ids now cmd) s h (fast_replay-db cmd s)
        (λ o s₁ h₁. or_process-err o s₁ e s' h₁)
