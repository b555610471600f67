-- ===== src/Store/Statements.antt =====
-- internal/postgres: the statements that write. A relation between tables that each of them keeps is
-- kept by the loops over statements as well.
pub mod Outbox
use jungle.Base.{ℕ, String, List, [], ◌∷◌}
use jungle.Values.{Uuid, Time}
use jungle.Int.{ℤ}
use jungle.Wallet.{Wallet}
use jungle.Wallet.Entry.{WalletLedgerEntry}
use jungle.Wagertx.{WagerTransaction}
use jungle.Journal
use jungle.Event.{Envelope}
use jungle.App.Backoff.{Duration}
use jungle.Store.Tables.{InboxRecord}
use jungle.Store.Action.Histories.{
  History, Keeps, Keeps-read, Keeps-if, Keeps-lift, Keeps-gets, Keeps-call, Keeps-fail_if,
  Keeps-bind, Keeps-within,
}
use jungle.Store.Wallets.{insert_wallet, update_balance}
use jungle.Store.TransactionWrites.{insert_transaction, update_transaction}
use jungle.Store.Logs.{
  insert_ledger, insert_inbox, insert_entry, insert_event, insert_journal, insert_outbox,
}
use jungle.Store.References.{record_reference_attempt}
use jungle.Store.Outbox.{claim, mark_published, reschedule}

-- The statements on published events keep the relation, whether they succeed or fail.
pub record OutboxWrites (H : History) : Type 0 where
  pub claimed :
      (owner : String) (limit : ℕ) (lock_for : Duration) (now : Time)
      → Keeps H (claim owner limit lock_for now)
  pub published : (id : Uuid) (now : Time) → Keeps H (mark_published id now)
  pub postponed : (id : Uuid) (attempts : ℕ) (next : Time) → Keeps H (reschedule id attempts next)

-- Every statement keeps the relation, whether it succeeds or fails.
pub record Writes (H : History) : Type 0 where
  pub wallet : (w : Wallet) → Keeps H (insert_wallet w)
  pub balance : (w : Wallet) (expected : ℤ) → Keeps H (update_balance w expected)
  pub transaction : (t : WagerTransaction) → Keeps H (insert_transaction t)
  pub update : (t : WagerTransaction) → Keeps H (update_transaction t)
  pub attempt :
      (id : Uuid) (attempts : ℕ) (next : Time) → Keeps H (record_reference_attempt id attempts next)
  pub ledger : (e : WalletLedgerEntry) → Keeps H (insert_ledger e)
  pub entry : (e : Journal.Entry) → Keeps H (insert_entry e)
  pub message : (r : InboxRecord) → Keeps H (insert_inbox r)
  pub event : (e : Envelope) → Keeps H (insert_event e)
  pub outbox : OutboxWrites H

pub ruleset keeps_rules = (Keeps-lift, Keeps-fail_if, Keeps-if, Keeps-bind, Keeps-within)

module _ {H : History} (writes : Writes H) where
  pub insert_journal-Keeps : (es : List Journal.Entry) → Keeps H (insert_journal es)
  unfolding insert_journal
  insert_journal-Keeps [] = Keeps-lift _
  insert_journal-Keeps (e ∷ es) =
      Keeps-bind (insert_entry e) _ (writes.entry e) (λ _. insert_journal-Keeps es)

  pub insert_outbox-Keeps : (es : List Envelope) → Keeps H (insert_outbox es)
  unfolding insert_outbox
  insert_outbox-Keeps [] = Keeps-lift _
  insert_outbox-Keeps (e ∷ es) =
      Keeps-bind (insert_event e) _ (writes.event e) (λ _. insert_outbox-Keeps es)
