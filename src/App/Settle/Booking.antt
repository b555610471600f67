-- ===== src/App/Settle/Booking.antt =====
-- internal/app/process_wager.go: what a booked movement has written when `settle` succeeds.
use jungle.Base.{◌≡◌, refl, ◌++◌, [], ◌∷◌, some, List}
use jungle.Values.{Time}
use jungle.Int.{pos, ◌≤ℤ◌}
use jungle.Wallet.{Wallet}
use jungle.Wallet.Entry.{WalletLedgerEntry, LedgerDirection, new_ledger_entry}
use jungle.Journal
use jungle.Journal.{new_movement, assert_balanced}
use jungle.Event.{Envelope, Meta, new_processed, new_balance_changed}
use jungle.Wagertx.{WagerTransaction, mark_processed}
use jungle.Result.{ok}
use jungle.Money.Arithmetic.{IsMoney}
use jungle.Store.Reconciled.{HaveInt64Amounts}
use jungle.Store.Tables.{Db, WalletRow, TransactionRow}
use jungle.Store.Action.{World}
use jungle.Store.Action.Laws.{>>=-elim, lift-elim, pure-eq-ok}
use jungle.Store.Wallets.{find_wallet, replace_wallet, updated_row}
use jungle.Store.Logs
use jungle.Store.Logs.{insert_ledger, insert_journal, insert_outbox, outbox_row}
use jungle.Store.Effects.{insert_ledger-db, update_balance-db, insert_journal-db, insert_outbox-db}
use jungle.App.Settle.{
  ProcessWagerResult, NewIds, Save, result_of, book, record_double_entry, movement_of, entry_params,
}

-- A save that writes to no table but that of the transactions, and no other amount there.
abbrev pub SavesTransaction : Save → Type 0
SavesTransaction save =
    (t : WagerTransaction) (s s' : World)
    → save t s ≡ (ok tt, s')
    → (rows : List TransactionRow) × (s'.db ≡ record s.db { transactions = rows })
      × (HaveInt64Amounts s.db.transactions → IsMoney t.money → HaveInt64Amounts rows)

record_double_entry-db :
    (ids : NewIds) (t : WagerTransaction) (direction : LedgerDirection) (now : Time) (s s' : World)
    → record_double_entry ids t direction now s ≡ (ok tt, s')
    → (es : List Journal.Entry) × (new_movement ids.debit_id ids.credit_id
          (movement_of t direction now)
        ≡ ok es)
      × (s'.db ≡ record s.db { journal = s.db.journal ++ es })
unfolding record_double_entry
record_double_entry-db ids t direction now s s' h =
    lift-elim _ _ s h
      λ es made h₁. lift-elim _ _ s h₁ λ _ balanced h₂. (es, made, insert_journal-db es s s' h₂)

module _ (ids : NewIds) (m : Meta) (now : Time) (save : Save) (saves : SavesTransaction save) where
  -- What `book` has done: the transaction is processed and saved, the row of the wallet has the new
  -- balance, and there are one more ledger entry and movement, and two more events: of the processed
  -- transaction and of the new balance.
  pub record Booked (t : WagerTransaction) (w w' : Wallet) (direction : LedgerDirection)
      (r : ProcessWagerResult) (before after : Db) : Type 0 where
    pub transaction : WagerTransaction
    pub is_processed : mark_processed w'.balance now t ≡ ok transaction
    pub returned : r ≡ result_of transaction w'.balance
    pub row : WalletRow
    pub found : find_wallet w'.id before.wallets ≡ some row
    pub expected : row.version ≡ w.version
    pub nonneg : pos 0 ≤ℤ w'.balance.minor_units
    pub entry : WalletLedgerEntry
    pub is_entry :
        new_ledger_entry (entry_params ids m now save transaction w w' direction) ≡ ok entry
    pub movement : List Journal.Entry
    pub is_movement :
        new_movement ids.debit_id ids.credit_id (movement_of transaction direction now)
        ≡ ok movement
    pub rows : List TransactionRow
    pub amounts :
        HaveInt64Amounts before.transactions → IsMoney transaction.money → HaveInt64Amounts rows
    pub saved_in : World
    pub saved_to : World
    pub is_saved : save transaction saved_in ≡ (ok tt, saved_to)
    pub began : saved_in.db ≡ before
    pub ended : after.transactions ≡ saved_to.db.transactions
    pub processed : Envelope
    pub is_processed_event : new_processed ids.event_id transaction w'.balance m ≡ ok processed
    pub changed : Envelope
    pub is_changed_event :
        new_balance_changed ids.changed_id entry w'.version
          (record m { causation_id = some transaction.id })
        ≡ ok changed
    pub written : after ≡ record {
      wallets = replace_wallet (updated_row w' row) before.wallets;
      transactions = rows;
      ledger = before.ledger ++ Logs.row_of entry ∷ [];
      inbox = before.inbox;
      outbox = before.outbox ++ outbox_row processed ∷ outbox_row changed ∷ [];
      journal = before.journal ++ movement;
    }

  pub book-Booked :
      (t : WagerTransaction) (w w' : Wallet) (direction : LedgerDirection) (s : World)
      (r : ProcessWagerResult) (s' : World)
      → book ids m now save t w w' direction s ≡ (ok r, s')
      → Booked t w w' direction r s.db s'.db
  unfolding book
  book-Booked t w w' direction s r s' h = lift-elim _ _ s h λ t' processed h₁.
      >>=-elim _ _ s h₁ λ _ s₁ saved h₂. >>=-elim _ _ s₁ h₂ λ _ s₂ updated h₃.
        lift-elim _ _ s₂ h₃ λ entry made h₄. >>=-elim _ _ s₂ h₄ λ _ s₃ logged h₅.
          >>=-elim _ _ s₃ h₅ λ _ s₄ doubled h₆. lift-elim _ _ s₄ h₆ λ event₁ told₁ h₇.
            lift-elim _ _ s₄ h₇ λ event₂ told₂ h₈. >>=-elim _ _ s₄ h₈ λ _ s₅ sent h₉.
              let (rows, d₁, amounts) = saves t' s s₁ saved in
              let (row, found, version, nonneg, d₂) =
                update_balance-db w' w.version s₁ s₂ updated in
              let d₃ = insert_ledger-db entry s₂ s₃ logged in
              let (es, movement, d₄) = record_double_entry-db ids t' direction now s₃ s₄ doubled in
              let d₅ = insert_outbox-db (event₁ ∷ event₂ ∷ []) s₄ s₅ sent in
              let (returned, end) = pure-eq-ok (result_of t' w'.balance) s₅ h₉ in
              record {
                transaction = t';
                is_processed = processed;
                returned = returned;
                row = row;
                found = rw d₁ at found;
                expected = version;
                nonneg = nonneg;
                entry = entry;
                is_entry = made;
                movement = es;
                is_movement = movement;
                rows = rows;
                amounts = amounts;
                saved_in = s;
                saved_to = s₁;
                is_saved = saved;
                began = refl;
                ended = rw (end, d₅, d₄, d₃, d₂) refl;
                processed = event₁;
                is_processed_event = told₁;
                changed = event₂;
                is_changed_event = told₂;
                written = rw (end, d₅, d₄, d₃, d₂, d₁);
              }
