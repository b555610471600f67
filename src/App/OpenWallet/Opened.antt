-- ===== src/App/OpenWallet/Opened.antt =====
-- internal/app/open_wallet.go: what the opening of a wallet has written when it succeeds.
use jungle.Base.{◌≡◌, ◌++◌, [], ◌∷◌, List, map}
use jungle.Values.{Uuid, Time}
use jungle.Wallet.{Wallet}
use jungle.Wallet.Entry.{WalletLedgerEntry, new_ledger_entry}
use jungle.Journal
use jungle.Journal.{new_movement, account_eq}
use jungle.Event.{Envelope}
use jungle.Wagertx.{WagerTransaction, new_opening}
use jungle.Result.{ok}
use jungle.Store.Tables.{Db}
use jungle.Store.Action.{World}
use jungle.Store.Action.Laws.{>>=-elim, lift-elim}
use jungle.Store.Transactions
use jungle.Store.Logs
use jungle.Store.Logs.{credits, debits, counted, is_credit, is_debit, outbox_row, insert_outbox}
use jungle.Store.Effects.{
  insert_ledger-db, insert_transaction-db, insert_journal-db, insert_outbox-db,
}
use jungle.App.OpenWallet.{
  OpeningIds, opening_params, opening_entry, funding, record_opening_credit,
}

module _ (ids : OpeningIds) (now : Time) where
  -- What `recordOpeningCredit` has done: one processed opening transaction, one ledger entry that
  -- credits the wallet with its balance, one movement from the platform and two events were added.
  pub record Credited (w : Wallet) (before after : Db) : Type 0 where
    pub transaction : WagerTransaction
    pub is_opening : new_opening (opening_params ids now w) ≡ ok transaction
    pub entry : WalletLedgerEntry
    pub is_entry : new_ledger_entry (opening_entry ids now transaction w) ≡ ok entry
    pub movement : List Journal.Entry
    pub is_movement :
        new_movement ids.debit_id ids.credit_id (funding ids now transaction w) ≡ ok movement
    pub db_now : Time
    pub events : List Envelope
    pub written : after ≡ record {
      wallets = before.wallets;
      transactions = before.transactions ++ Transactions.row_of db_now transaction ∷ [];
      ledger = before.ledger ++ Logs.row_of entry ∷ [];
      inbox = before.inbox;
      outbox = before.outbox ++ map outbox_row events;
      journal = before.journal ++ movement;
    }

  pub record_opening_credit-Credited :
      (w : Wallet) (correlation : Uuid) (s s' : World)
      → record_opening_credit ids now w correlation s ≡ (ok tt, s')
      → Credited w s.db s'.db
  unfolding record_opening_credit
  record_opening_credit-Credited w correlation s s' h = lift-elim _ _ s h λ t made h₁.
      >>=-elim _ _ s h₁ λ _ s₁ inserted h₂. lift-elim _ _ s₁ h₂ λ entry computed h₃.
        >>=-elim _ _ s₁ h₃ λ _ s₂ logged h₄. lift-elim _ _ s₂ h₄ λ es moved h₅.
          >>=-elim _ _ s₂ h₅ λ _ s₃ doubled h₆. lift-elim _ _ s₃ h₆ λ event₁ _ h₇.
            lift-elim _ _ s₃ h₇ λ event₂ _ h₈.
              let d₁ = insert_transaction-db t s s₁ inserted in
              let d₂ = insert_ledger-db entry s₁ s₂ logged in
              let d₃ = insert_journal-db es s₂ s₃ doubled in
              let d₄ = insert_outbox-db (event₁ ∷ event₂ ∷ []) s₃ s' h₈ in
              record {
                transaction = t;
                is_opening = made;
                entry = entry;
                is_entry = computed;
                movement = es;
                is_movement = moved;
                db_now = s.db_now;
                events = event₁ ∷ event₂ ∷ [];
                written = rw (d₄, d₃, d₂, d₁);
              }
