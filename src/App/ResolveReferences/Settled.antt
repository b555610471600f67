-- ===== src/App/ResolveReferences/Settled.antt =====
-- internal/app/process_wager.go: what `settle` writes over a stored transaction leaves its row in a
-- status that nothing changes.
use jungle.Base.{
  ◌≡◌, ◌∙◌, refl, ap, arith, Bool, true, false, some, List, [], ◌∷◌, inl, inr, Bool-cases,
  if◌then◌else◌,
}
use jungle.Values.{Uuid, Time}
use jungle.Money.{Money}
use jungle.Wallet.{Wallet}
use jungle.Wallet.Entry.{LedgerDirection}
use jungle.Event.{Envelope, Meta}
use jungle.Wagertx.{WagerTransaction, mark_processed, mark_rejected, transition_to}
use jungle.Wagertx.Constants.{FailureCode, status_is_terminal}
use jungle.Result.{Error, Result, ok, err}
use jungle.Store.Tables.{Db, TransactionRow}
use jungle.Store.Action.{World, pure, lift, raise, ◌>>=◌, ◌>>◌}
use jungle.Store.Action.Laws.{>>=-elim, lift-elim, pure-eq-ok}
use jungle.Store.Transactions.{find_first, has_id}
use jungle.Store.TransactionWrites.{update_transaction, updated_row, replace_row}
use jungle.Store.Logs.{insert_outbox}
use jungle.Store.Effects.{insert_outbox-db}
use jungle.Store.References.Writes.{update_transaction-db, find_first-id}
use jungle.App.Decide.{Decision, DecisionKind}
use jungle.App.Settle.{
  NewIds, ProcessWagerResult, reject, note, book, move_funds, settle_kind, apply_movement,
}
use jungle.App.Settle.Booking.{book-Booked}
use jungle.App.ResolveReferences.Reconciles.{update_transaction-SavesTransaction}

-- The first row with the id is in a status that nothing changes.
abbrev pub IsSettled : Uuid → Db → Type 0
IsSettled id db =
    (r : TransactionRow) × (find_first (has_id id) db.transactions ≡ some r)
    × (status_is_terminal r.status ≡ true)

find_first-replace_row :
    (id : Uuid) (new r : TransactionRow) (rows : List TransactionRow)
    → new.id ≡ id
    → find_first (has_id id) rows ≡ some r
    → find_first (has_id id) (replace_row new rows) ≡ some new
unfolding find_first replace_row
find_first-replace_row id new r [] own h = cc
find_first-replace_row id new r (x ∷ rows) own h =
    ground (arith, find_first-replace_row id new r rows own)

saved-IsSettled :
    (t : WagerTransaction) (s s' : World)
    → status_is_terminal t.status ≡ true
    → update_transaction t s ≡ (ok tt, s')
    → IsSettled t.id s'.db
saved-IsSettled t s s' terminal h =
    let (r, found, d) = update_transaction-db t s s' h in
    let own = find_first-id t.id s.db.transactions r found in
    (
      updated_row t r,
      ap (λ x. find_first (has_id t.id) x.transactions) d
          ∙ find_first-replace_row t.id (updated_row t r) r s.db.transactions own found,
      terminal,
    )

mark_processed-terminal :
    (balance : Money) (now : Time) (t t' : WagerTransaction)
    → mark_processed balance now t ≡ ok t'
    → (status_is_terminal t'.status ≡ true) × (t'.id ≡ t.id)
unfolding mark_processed transition_to status_is_terminal
mark_processed-terminal balance now t t' h = ground arith

mark_rejected-terminal :
    (code : FailureCode) (now : Time) (t t' : WagerTransaction)
    → mark_rejected code now t ≡ ok t'
    → (status_is_terminal t'.status ≡ true) × (t'.id ≡ t.id)
unfolding mark_rejected transition_to status_is_terminal
mark_rejected-terminal code now t t' h = ground arith

pub IsSettled-transactions :
    (id : Uuid) (a b : Db) → b.transactions ≡ a.transactions → IsSettled id a → IsSettled id b
IsSettled-transactions id a b same (r, found, terminal) = (r, rw same found, terminal)

-- The end of `reject` and of `note`.
saved_and_told-IsSettled :
    {A : Type 0} (t : WagerTransaction) (e : Result Envelope) (answer : A) (s : World) (r : A)
    (s' : World)
    → status_is_terminal t.status ≡ true
    → (do update_transaction t; event ← lift e; insert_outbox (event ∷ []); pure answer) s
      ≡ (ok r, s')
    → IsSettled t.id s'.db
saved_and_told-IsSettled t e answer s r s' terminal h = >>=-elim _ _ s h λ _ s₁ saved h₁.
    lift-elim _ _ s₁ h₁ λ event _ h₂. >>=-elim _ _ s₁ h₂ λ _ s₂ sent h₃.
      let d = insert_outbox-db (event ∷ []) s₁ s₂ sent in
      let (_, end) = pure-eq-ok answer s₂ h₃ in
      IsSettled-transactions t.id s₁.db s'.db (rw (end, d) refl)
        (saved-IsSettled t s s₁ terminal saved)

module _ (ids : NewIds) (m : Meta) (now : Time) where
  pub reject-IsSettled :
      (t : WagerTransaction) (w : Wallet) (code : FailureCode) (s : World) (r : ProcessWagerResult)
      (s' : World)
      → reject ids m now update_transaction t w code s ≡ (ok r, s')
      → IsSettled t.id s'.db
  unfolding reject
  reject-IsSettled t w code s r s' h = lift-elim _ _ s h λ t' marked h₁.
      let (terminal, own) = mark_rejected-terminal code now t t' marked in
      rw (← own) (saved_and_told-IsSettled t' _ _ s r s' terminal h₁)

  note-IsSettled :
      (t : WagerTransaction) (w : Wallet) (s : World) (r : ProcessWagerResult) (s' : World)
      → note ids m now update_transaction t w s ≡ (ok r, s')
      → IsSettled t.id s'.db
  unfolding note
  note-IsSettled t w s r s' h = lift-elim _ _ s h λ t' marked h₁.
      let (terminal, own) = mark_processed-terminal w.balance now t t' marked in
      rw (← own) (saved_and_told-IsSettled t' _ _ s r s' terminal h₁)

  book-IsSettled :
      (t : WagerTransaction) (w w' : Wallet) (d : LedgerDirection) (s : World)
      (r : ProcessWagerResult) (s' : World)
      → book ids m now update_transaction t w w' d s ≡ (ok r, s')
      → IsSettled t.id s'.db
  book-IsSettled t w w' d s r s' h =
      let b =
        book-Booked ids m now update_transaction update_transaction-SavesTransaction t w w' d s r s'
          h in
      let (terminal, own) = mark_processed-terminal w'.balance now t b.transaction b.is_processed in
      rw (← own) (
        IsSettled-transactions b.transaction.id b.saved_to.db s'.db b.ended
          (saved-IsSettled b.transaction b.saved_in b.saved_to terminal b.is_saved))

  reject_if-IsSettled :
      (short : Bool) (t : WagerTransaction) (w : Wallet) (code : FailureCode) (e : Error)
      (s : World) (r : ProcessWagerResult) (s' : World)
      → (if short then reject ids m now update_transaction t w code else raise e) s ≡ (ok r, s')
      → IsSettled t.id s'.db
  reject_if-IsSettled true t w code e s r s' h = reject-IsSettled t w code s r s' h
  reject_if-IsSettled false t w code e s r s' h = cc

  move_funds-IsSettled :
      (t : WagerTransaction) (w : Wallet) (d : LedgerDirection) (o : Result Wallet) (s : World)
      (r : ProcessWagerResult) (s' : World)
      → move_funds ids m now update_transaction t w d o s ≡ (ok r, s')
      → IsSettled t.id s'.db
  move_funds-IsSettled t w d (ok w') s r s' h = book-IsSettled t w w' d s r s' h
  move_funds-IsSettled t w d (err e) s r s' h = reject_if-IsSettled _ t w _ e s r s' h

  pub settle_process-IsSettled :
      (t : WagerTransaction) (w : Wallet) (d : Decision) (s : World) (r : ProcessWagerResult)
      (s' : World)
      → settle_kind ids m now update_transaction t w d DecisionKind.process s ≡ (ok r, s')
      → IsSettled t.id s'.db
  settle_process-IsSettled t w d s r s' h = elim (Bool-cases d.moves_funds) [
    | inl moving ↦
        move_funds-IsSettled t w d.direction (apply_movement w d.direction t.money now) s r s'
          (rw moving at h)
    | inr still ↦ note-IsSettled t w s r s' (rw still at h)
  ]
