-- ===== src/Store/Evolution/Statements.antt =====
-- internal/postgres: each statement changes the tables only as they may change.
use jungle.Base.{◌≡◌, refl, ◌++◌, List, [], ◌∷◌, Extends, Extends-append, ap, ◌∙◌}
use jungle.Journal
use jungle.Store.Tables.{Db, WalletRow, TransactionRow, LedgerRow, InboxRecord, OutboxRow}
use jungle.Store.Wallets
use jungle.Store.Reconciled.{find_wallet-id}
use jungle.Store.Logs
use jungle.Store.Transactions
use jungle.Store.Transactions.{find_first, has_id}
use jungle.Store.TransactionWrites.{updated_row}
use jungle.Store.Outbox.{locked}
use jungle.Store.Action.Histories.{Keeps-either}
use jungle.Store.Outcomes.{
  insert_ledger-either, insert_entry-either, insert_inbox-either, insert_event-either,
  insert_wallet-either, update_balance-either, insert_transaction-either, update_transaction-either,
  record_reference_attempt-either, claim-either, mark_published-either, reschedule-either,
}
use jungle.Store.Statements.{Writes}
use jungle.Store.Evolution.{
  SameWallet, SameOperation, SameEvent, SameOperation-refl, SameEvent-refl, Evolves, Evolves-refl,
  evolution,
}
use jungle.Store.Evolution.Rows.{
  find_first-same_id, replace_wallet-Extends, replace_row-Extends, reschedule_rows-Extends,
  update_where-Extends, mark_published-Extends,
}

-- Only one table has changed.
module _ (db : Db) where
  wallets-Evolves :
      (rows : List WalletRow)
      → Extends SameWallet db.wallets rows
      → Evolves db (record db { wallets = rows })
  wallets-Evolves rows h =
      let e = Evolves-refl db in
      record {
        wallets = h;
        transactions = e.transactions;
        ledger = e.ledger;
        inbox = e.inbox;
        outbox = e.outbox;
        journal = e.journal;
      }

  transactions-Evolves :
      (rows : List TransactionRow)
      → Extends SameOperation db.transactions rows
      → Evolves db (record db { transactions = rows })
  transactions-Evolves rows h =
      let e = Evolves-refl db in
      record {
        wallets = e.wallets;
        transactions = h;
        ledger = e.ledger;
        inbox = e.inbox;
        outbox = e.outbox;
        journal = e.journal;
      }

  ledger-Evolves :
      (rows : List LedgerRow)
      → Extends (◌≡◌ {A = LedgerRow}) db.ledger rows
      → Evolves db (record db { ledger = rows })
  ledger-Evolves rows h =
      let e = Evolves-refl db in
      record {
        wallets = e.wallets;
        transactions = e.transactions;
        ledger = h;
        inbox = e.inbox;
        outbox = e.outbox;
        journal = e.journal;
      }

  inbox-Evolves :
      (rows : List InboxRecord)
      → Extends (◌≡◌ {A = InboxRecord}) db.inbox rows
      → Evolves db (record db { inbox = rows })
  inbox-Evolves rows h =
      let e = Evolves-refl db in
      record {
        wallets = e.wallets;
        transactions = e.transactions;
        ledger = e.ledger;
        inbox = h;
        outbox = e.outbox;
        journal = e.journal;
      }

  outbox-Evolves :
      (rows : List OutboxRow)
      → Extends SameEvent db.outbox rows
      → Evolves db (record db { outbox = rows })
  outbox-Evolves rows h =
      let e = Evolves-refl db in
      record {
        wallets = e.wallets;
        transactions = e.transactions;
        ledger = e.ledger;
        inbox = e.inbox;
        outbox = h;
        journal = e.journal;
      }

  journal-Evolves :
      (rows : List Journal.Entry)
      → Extends (◌≡◌ {A = Journal.Entry}) db.journal rows
      → Evolves db (record db { journal = rows })
  journal-Evolves rows h =
      let e = Evolves-refl db in
      record {
        wallets = e.wallets;
        transactions = e.transactions;
        ledger = e.ledger;
        inbox = e.inbox;
        outbox = e.outbox;
        journal = h;
      }

-- Every statement of the repositories changes the tables only as they may change.
pub evolution-Writes : Writes evolution
evolution-Writes = record {
  wallet = λ w. Keeps-either _ _ (insert_wallet-either w) λ s new. rw new (
      wallets-Evolves s.db (s.db.wallets ++ Wallets.row_of w ∷ [])
        (Extends-append SameWallet (λ r. refl) s.db.wallets (Wallets.row_of w ∷ [])));
  balance = λ w expected. Keeps-either _ _ (update_balance-either w expected) λ s (r, found, new).
      rw new (
        wallets-Evolves s.db _ (
          replace_wallet-Extends (Wallets.updated_row w r) r s.db.wallets
            (ap (λ i. Wallets.find_wallet i s.db.wallets) (find_wallet-id w.id s.db.wallets r found)
              ∙ found)
            refl));
  transaction = λ t. Keeps-either _ _ (insert_transaction-either t) λ s (_, new). rw new (
      transactions-Evolves s.db (s.db.transactions ++ Transactions.row_of s.db_now t ∷ []) (
        Extends-append SameOperation SameOperation-refl s.db.transactions
          (Transactions.row_of s.db_now t ∷ [])));
  update = λ t. Keeps-either _ _ (update_transaction-either t) λ s (r, found, still, new). rw new (
      transactions-Evolves s.db _ (
        replace_row-Extends (updated_row t r) r s.db.transactions
          (find_first-same_id t.id s.db.transactions r found)
          (refl, λ settled. absurd (cc (still, settled)))));
  attempt = λ id attempts next.
      Keeps-either _ _ (record_reference_attempt-either id attempts next) λ s new.
        rw new (
          transactions-Evolves s.db _ (reschedule_rows-Extends id attempts next s.db.transactions));
  ledger = λ e. Keeps-either _ _ (insert_ledger-either e) λ s (_, new). rw new (
      ledger-Evolves s.db (s.db.ledger ++ Logs.row_of e ∷ [])
        (Extends-append ◌≡◌ (λ r. refl) s.db.ledger (Logs.row_of e ∷ [])));
  entry = λ e. Keeps-either _ _ (insert_entry-either e) λ s new. rw new (
      journal-Evolves s.db (s.db.journal ++ e ∷ [])
        (Extends-append ◌≡◌ (λ r. refl) s.db.journal (e ∷ [])));
  message = λ r. Keeps-either _ _ (insert_inbox-either r) λ s (_, new). rw new (
      inbox-Evolves s.db (s.db.inbox ++ r ∷ [])
        (Extends-append ◌≡◌ (λ x. refl) s.db.inbox (r ∷ [])));
  event = λ e. Keeps-either _ _ (insert_event-either e) λ s new. rw new (
      outbox-Evolves s.db (s.db.outbox ++ Logs.outbox_row e ∷ [])
        (Extends-append SameEvent SameEvent-refl s.db.outbox (Logs.outbox_row e ∷ [])));
  outbox = record {
    claimed = λ owner limit lock_for now.
        Keeps-either _ _ (claim-either owner limit lock_for now) λ s new. rw new (
          outbox-Evolves s.db _
            (update_where-Extends _ (locked owner _) (λ r. refl) (λ r _ _. refl) s.db.outbox));
    published = λ id now.
        Keeps-either _ _ (mark_published-either id now)
          λ s new. rw new (outbox-Evolves s.db _ (mark_published-Extends id now s.db.outbox));
    postponed = λ id attempts next. Keeps-either _ _ (reschedule-either id attempts next) λ s new.
        rw new (
          outbox-Evolves s.db _ (update_where-Extends _ _ (λ r. refl) (λ r _ _. refl) s.db.outbox));
  };
}
