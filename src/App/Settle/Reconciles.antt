-- ===== src/App/Settle/Reconciles.antt =====
-- internal/app/process_wager.go: `settle` keeps every stored balance equal to the ledger's totals.
use jungle.Base.{
  ◌≡◌, [], ◌∷◌, some, arith, refl, ap, sym, ◌∙◌, Option, Bool, true, false, if◌then◌else◌, inl, inr,
  Bool-cases,
}
use jungle.Values.{Uuid, Time}
use jungle.Money.{Money}
use jungle.Money.Arithmetic.{IsMoney}
use jungle.Wallet
use jungle.Wallet.{Wallet}
use jungle.Wallet.Entry.{LedgerDirection, debit, credit, other, apply_direction}
use jungle.Wallet.Entry.Math.{apply_direction-Balances, new_ledger_entry_facts}
use jungle.Event.{Envelope, Meta}
use jungle.Wagertx.{WagerTransaction, mark_processed, mark_rejected, mark_pending_reference}
use jungle.Wagertx.Constants.{FailureCode}
use jungle.Result.{Error, Result, ok, err}
use jungle.Store.Tables.{Db, WalletRow}
use jungle.Store.Action.{◌>>=◌, ◌>>◌, lift, pure, World, raise}
use jungle.Store.Action.Laws.{>>=-elim, lift-elim, pure-eq-ok}
use jungle.Store.Wallets.{find_wallet, updated_row}
use jungle.Store.Logs
use jungle.Store.Logs.{insert_outbox}
use jungle.Store.Effects.{insert_outbox-db}
use jungle.Store.Journals.Sums.{net-movement}
use jungle.Journal.Balanced.{new_movement_facts}
use jungle.Store.Reconciled.Accounts.{AccountsAgree-append}
use jungle.App.Settle.Accounts.{movement_of-IsMatched}
use jungle.Store.Reconciled.{IsReconciled, HaveInt64Amounts, IsReconciled-move, find_wallet-id}
use jungle.App.Decide.{Decision, DecisionKind}
use jungle.App.Settle.{
  ProcessWagerResult, NewIds, Save, apply_movement, reject, park, note, book, settle, move_funds,
  settle_kind, movement_of,
}
use jungle.App.Settle.Booking.{SavesTransaction, book-Booked}

-- A movement computes the balance that its ledger entry will compute.
pub apply_movement_facts :
    (w w' : Wallet) (d : LedgerDirection) (amount : Money) (now : Time)
    → apply_movement w d amount now ≡ ok w'
    → (apply_direction w.balance amount d ≡ ok w'.balance) × (w'.id ≡ w.id)
unfolding apply_movement apply_direction Wallet.debit Wallet.credit
apply_movement_facts w w' debit amount now h = ground arith
apply_movement_facts w w' credit amount now h = ground arith
apply_movement_facts w w' (other s) amount now h = cc

-- The tables that the balances and their totals are read from are the same, as is the journal, and the
-- amounts of the transactions are still int64.
abbrev pub SameFunds : Db → Db → Type 0
SameFunds a b =
    (b.wallets ≡ a.wallets)
    × (b.ledger ≡ a.ledger)
    × (HaveInt64Amounts a.transactions → HaveInt64Amounts b.transactions)
    × (b.journal ≡ a.journal)

pub IsReconciled-SameFunds : (a b : Db) → SameFunds a b → IsReconciled a → IsReconciled b
IsReconciled-SameFunds a b (ws, ls, keeps, same) (inv, strays, amounts, even, agree) = (
  λ id r h. rw ls (inv id r (rw (← ws) h)),
  λ id h. rw ls (strays id (rw (← ws) h)),
  keeps amounts,
  rw same even,
  λ id. rw (same, ls) (agree id),
)

-- The wallet is the stored one with the id.
abbrev pub IsStored : Uuid → Wallet → Db → Type 0
IsStored id w db =
    (row : WalletRow) × (find_wallet id db.wallets ≡ some row)
    × (w.id ≡ id)
    × (w.balance.minor_units ≡ row.balance_minor_units)

same_row : (o : Option WalletRow) (a b : WalletRow) → o ≡ some a → o ≡ some b → a ≡ b
same_row o a b p q = cc

mark_processed-money :
    (balance : Money) (now : Time) (t t' : WagerTransaction)
    → mark_processed balance now t ≡ ok t'
    → t'.money ≡ t.money
unfolding mark_processed
mark_processed-money balance now t t' h = ground arith

mark_processed-wallet_id :
    (balance : Money) (now : Time) (t t' : WagerTransaction)
    → mark_processed balance now t ≡ ok t'
    → t'.wallet_id ≡ t.wallet_id
unfolding mark_processed
mark_processed-wallet_id balance now t t' h = ground arith

mark_rejected-money :
    (code : FailureCode) (now : Time) (t t' : WagerTransaction)
    → mark_rejected code now t ≡ ok t'
    → t'.money ≡ t.money
unfolding mark_rejected
mark_rejected-money code now t t' h = ground arith

mark_pending_reference-money :
    (now : Time) (t t' : WagerTransaction)
    → mark_pending_reference now t ≡ ok t'
    → t'.money ≡ t.money
unfolding mark_pending_reference
mark_pending_reference-money now t t' h = ground arith

module _ {A : Type 0} (save : Save) (saves : SavesTransaction save) where
  -- A transaction is saved and one event is sent.
  pub recorded-SameFunds :
      (t : WagerTransaction) (e : Result Envelope) (answer : A) (s : World) (r : A) (s' : World)
      → IsMoney t.money
      → (do save t; event ← lift e; insert_outbox (event ∷ []); pure answer) s ≡ (ok r, s')
      → SameFunds s.db s'.db
  recorded-SameFunds t e answer s r s' money h = >>=-elim _ _ s h λ _ s₁ saved h₁.
      lift-elim _ _ s₁ h₁ λ event _ h₂. >>=-elim _ _ s₁ h₂ λ _ s₂ sent h₃.
        let (rows, d₁, keeps) = saves t s s₁ saved in
        let d₂ = insert_outbox-db (event ∷ []) s₁ s₂ sent in
        let (_, end) = pure-eq-ok answer s₂ h₃ in
        (
          rw (end, d₂, d₁) refl,
          rw (end, d₂, d₁) refl,
          λ a. rw (end, d₂, d₁) (keeps a money),
          rw (end, d₂, d₁) refl,
        )

module _ (ids : NewIds) (m : Meta) (now : Time) (save : Save) (saves : SavesTransaction save) where
  pub reject-SameFunds :
      (t : WagerTransaction) (w : Wallet) (code : FailureCode) (s : World) (r : ProcessWagerResult)
      (s' : World)
      → IsMoney t.money
      → reject ids m now save t w code s ≡ (ok r, s')
      → SameFunds s.db s'.db
  unfolding reject
  reject-SameFunds t w code s r s' money h = lift-elim _ _ s h λ t' marked h₁.
      recorded-SameFunds save saves t' _ _ s r s'
        (rw (mark_rejected-money code now t t' marked) money) h₁

  reject_if-SameFunds :
      (short : Bool) (t : WagerTransaction) (w : Wallet) (code : FailureCode) (e : Error)
      (s : World) (r : ProcessWagerResult) (s' : World)
      → IsMoney t.money
      → (if short then reject ids m now save t w code else raise e) s ≡ (ok r, s')
      → SameFunds s.db s'.db
  reject_if-SameFunds true t w code e s r s' money h = reject-SameFunds t w code s r s' money h
  reject_if-SameFunds false t w code e s r s' money h = cc

  park-SameFunds :
      (t : WagerTransaction) (w : Wallet) (s : World) (r : ProcessWagerResult) (s' : World)
      → IsMoney t.money
      → park ids m now save t w s ≡ (ok r, s')
      → SameFunds s.db s'.db
  unfolding park
  park-SameFunds t w s r s' money h = lift-elim _ _ s h λ t' marked h₁.
      recorded-SameFunds save saves t' _ _ s r s'
        (rw (mark_pending_reference-money now t t' marked) money) h₁

  note-SameFunds :
      (t : WagerTransaction) (w : Wallet) (s : World) (r : ProcessWagerResult) (s' : World)
      → IsMoney t.money
      → note ids m now save t w s ≡ (ok r, s')
      → SameFunds s.db s'.db
  unfolding note
  note-SameFunds t w s r s' money h = lift-elim _ _ s h λ t' marked h₁.
      recorded-SameFunds save saves t' _ _ s r s'
        (rw (mark_processed-money w.balance now t t' marked) money) h₁

  book-IsReconciled :
      (t : WagerTransaction) (w w' : Wallet) (d : LedgerDirection) (s : World)
      (r : ProcessWagerResult) (s' : World)
      → IsReconciled s.db
      → IsStored t.wallet_id w s.db
      → IsMoney t.money
      → apply_movement w d t.money now ≡ ok w'
      → book ids m now save t w w' d s ≡ (ok r, s')
      → IsReconciled s'.db
  book-IsReconciled t w w' d s r s' inv (row₀, found₀, home, same₀) money moves h =
      let b = book-Booked ids m now save saves t w w' d s r s' h in
      let (computed, same_id) = apply_movement_facts w w' d t.money now moves in
      let (_, amount, direction, _, owner, _, _) = new_ledger_entry_facts _ b.entry b.is_entry in
      let spent = mark_processed-money w'.balance now t b.transaction b.is_processed in
      let units : (Logs.row_of b.entry).amount_minor_units ≡ t.money.minor_units =
        ap (λ x. x.minor_units) (amount ∙ spent) in
      let is_row : row₀ ≡ b.row = same_row _ row₀ b.row found₀ (rw (same_id, home) at b.found) in
      let int : IsMoney w.balance = rw same₀ (inv.0 t.wallet_id row₀ found₀).0 in
      let held : (Logs.row_of b.entry).wallet_id ≡ b.transaction.wallet_id =
        owner
        ∙ same_id
        ∙ home
        ∙ sym (mark_processed-wallet_id w'.balance now t b.transaction b.is_processed) in
      let (entries, _, _) =
        new_movement_facts ids.debit_id ids.credit_id (movement_of b.transaction d now) b.movement
          b.is_movement in
      let own = find_wallet-id w'.id s.db.wallets b.row b.found in
      let (math, _, _, in_range) =
        apply_direction-Balances d w.balance t.money w'.balance int money computed in
      IsReconciled-move s.db s'.db b.row (updated_row w' b.row) (Logs.row_of b.entry) inv
        (rw own b.found) (ap (λ x. x.wallets) b.written) (ap (λ x. x.ledger) b.written)
        (owner ∙ sym own) in_range (rw (direction, units, ← is_row, ← same₀) math)
        (rw (ap (λ x. x.transactions) b.written) (b.amounts inv.2 (rw spent money)))
        (rw (ap (λ x. x.journal) b.written)
          (net-movement s.db.journal b.movement _ _ _ b.is_movement inv.3))
        (AccountsAgree-append s.db.journal b.movement _ s.db.ledger (Logs.row_of b.entry) _
          (ap (λ x. x.journal) b.written) (ap (λ x. x.ledger) b.written) inv.4
          (rw entries (
            movement_of-IsMatched ids.debit_id ids.credit_id b.transaction now d
              (Logs.row_of b.entry) held (ap (λ x. x.minor_units) amount) direction
              w.balance.minor_units w'.balance.minor_units (rw spent math))))

  move_funds-IsReconciled :
      (t : WagerTransaction) (w : Wallet) (d : LedgerDirection) (o : Result Wallet) (s : World)
      (r : ProcessWagerResult) (s' : World)
      → IsReconciled s.db
      → IsStored t.wallet_id w s.db
      → IsMoney t.money
      → apply_movement w d t.money now ≡ o
      → move_funds ids m now save t w d o s ≡ (ok r, s')
      → IsReconciled s'.db
  move_funds-IsReconciled t w d (ok w') s r s' inv stored money moves h =
      book-IsReconciled t w w' d s r s' inv stored money moves h
  move_funds-IsReconciled t w d (err e) s r s' inv stored money moves h =
      IsReconciled-SameFunds s.db s'.db (reject_if-SameFunds _ t w _ e s r s' money h) inv

  settle_kind-IsReconciled :
      (t : WagerTransaction) (w : Wallet) (d : Decision) (k : DecisionKind) (s : World)
      (r : ProcessWagerResult) (s' : World)
      → IsReconciled s.db
      → IsStored t.wallet_id w s.db
      → IsMoney t.money
      → settle_kind ids m now save t w d k s ≡ (ok r, s')
      → IsReconciled s'.db
  settle_kind-IsReconciled t w d DecisionKind.pending_reference s r s' inv stored money h =
      IsReconciled-SameFunds s.db s'.db (park-SameFunds t w s r s' money h) inv
  settle_kind-IsReconciled t w d DecisionKind.reject s r s' inv stored money h =
      IsReconciled-SameFunds s.db s'.db (reject-SameFunds t w d.failure s r s' money h) inv
  settle_kind-IsReconciled t w d DecisionKind.process s r s' inv stored money h =
      elim (Bool-cases d.moves_funds) [
        | inl moving ↦
            move_funds-IsReconciled t w d.direction (apply_movement w d.direction t.money now) s r
              s' inv stored money refl (rw moving at h)
        | inr still ↦
            IsReconciled-SameFunds s.db s'.db (note-SameFunds t w s r s' money (rw still at h)) inv
      ]

  -- Where the saving of a transaction writes to no other table, a decision on an int64 amount for a
  -- stored wallet, settled with success on reconciled tables, leaves them reconciled.
  pub settle-IsReconciled :
      (t : WagerTransaction) (w : Wallet) (d : Decision) (s : World) (r : ProcessWagerResult)
      (s' : World)
      → IsReconciled s.db
      → IsStored t.wallet_id w s.db
      → IsMoney t.money
      → settle ids m now save t w d s ≡ (ok r, s')
      → IsReconciled s'.db
  unfolding settle
  settle-IsReconciled t w d s r s' inv stored money h =
      settle_kind-IsReconciled t w d d.kind s r s' inv stored money h
