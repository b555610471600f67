-- ===== src/Store/Outcomes.antt =====
-- internal/postgres: what a statement that writes has done to the tables, be it nothing.
use jungle.Base.{
  ℕ, String, ◌≡◌, ◌⊎◌, ◌++◌, [], ◌∷◌, List, none, some, false, arith, refl, ap, ◌∙◌, inl, inr,
  Option-cases,
}
use jungle.Values.{Uuid, Time}
use jungle.Int.{ℤ}
use jungle.Wallet.{Wallet}
use jungle.Wallet.Entry.{WalletLedgerEntry}
use jungle.Wagertx.{WagerTransaction}
use jungle.Wagertx.Constants.{status_is_terminal}
use jungle.Journal
use jungle.Event.{Envelope}
use jungle.App.Backoff.{Duration}
use jungle.Result.{Result, ok, err}
use jungle.Store.Tables.{Db, InboxRecord, TransactionRow, WalletRow}
use jungle.Store.Action.{World, Action, call, continue, ◌>>=◌, ◌>>◌}
use jungle.Store.Action.Laws.{call-db, call-db_now}
use jungle.Store.Wallets
use jungle.Store.Wallets.{insert_wallet, update_balance, find_wallet, replace_wallet}
use jungle.Store.Transactions
use jungle.Store.Transactions.{has_row, has_id, find_first}
use jungle.Store.TransactionWrites
use jungle.Store.TransactionWrites.{
  insert_row, insert_transaction, update_transaction, replace_row, has_same_key, has_same_identity,
  has_same_opening,
}
use jungle.Store.Logs
use jungle.Store.Logs.{
  insert_ledger, insert_inbox, insert_entry, insert_event, has_collision, find_message, outbox_row,
}
use jungle.Store.References.{record_reference_attempt, reschedule_rows}
use jungle.Store.Outbox.{
  claim, mark_published, reschedule, is_open, published, rescheduled, update_where,
}
use jungle.Store.Outbox.History.{locked_rows}

-- After the round trip has failed nothing more is done.
called-either :
    (m : Action (Unit {0})) (s : World)
    → (((call >> m) s).1.db ≡ s.db) ⊎ ((call >> m) s ≡ m (call s).1)
unfolding ◌>>=◌
called-either m s = go (call s).0 (call s).1 (call-db s)
  where
    go :
        (r : Result (Unit {0})) (s₁ : World)
        → s₁.db ≡ s.db
        → ((continue r (λ _. m) s₁).1.db ≡ s.db) ⊎ (continue r (λ _. m) s₁ ≡ m s₁)
    go (ok _) s₁ same = inr refl
    go (err e) s₁ same = inl same

pub insert_ledger-either :
    (e : WalletLedgerEntry) (s : World)
    → ((insert_ledger e s).1.db ≡ s.db)
      ⊎ ((has_collision (Logs.row_of e) s.db.ledger ≡ false)
          × ((insert_ledger e s).1.db ≡ record s.db { ledger = s.db.ledger ++ Logs.row_of e ∷ [] }))
unfolding insert_ledger ◌>>=◌
insert_ledger-either e s = ground (arith, call-db s)

pub insert_entry-either :
    (e : Journal.Entry) (s : World)
    → ((insert_entry e s).1.db ≡ s.db)
      ⊎ ((insert_entry e s).1.db ≡ record s.db { journal = s.db.journal ++ e ∷ [] })
unfolding ◌>>=◌
insert_entry-either e s = ground (arith, call-db s)

pub insert_inbox-either :
    (r : InboxRecord) (s : World)
    → ((insert_inbox r s).1.db ≡ s.db)
      ⊎ ((find_message r.consumer_name r.message_id s.db.inbox ≡ none)
          × ((insert_inbox r s).1.db ≡ record s.db { inbox = s.db.inbox ++ r ∷ [] }))
unfolding insert_inbox ◌>>=◌
insert_inbox-either r s = ground (arith, call-db s)

pub insert_event-either :
    (e : Envelope) (s : World)
    → ((insert_event e s).1.db ≡ s.db)
      ⊎ ((insert_event e s).1.db ≡ record s.db { outbox = s.db.outbox ++ outbox_row e ∷ [] })
unfolding ◌>>=◌
insert_event-either e s = ground (arith, call-db s)

pub insert_wallet-either :
    (w : Wallet) (s : World)
    → ((insert_wallet w s).1.db ≡ s.db)
      ⊎ ((insert_wallet w s).1.db ≡ record s.db { wallets = s.db.wallets ++ Wallets.row_of w ∷ [] })
unfolding insert_wallet ◌>>=◌
insert_wallet-either w s = ground (arith, call-db s)

update_found-either :
    (w : Wallet) (expected : ℤ) (r : WalletRow) (s : World)
    → ((Wallets.update_found w expected (some r) s).1.db ≡ s.db)
      ⊎ ((Wallets.update_found w expected (some r) s).1.db
          ≡ record s.db { wallets = replace_wallet (Wallets.updated_row w r) s.db.wallets })
unfolding ◌>>=◌
update_found-either w expected r s = ground arith

pub update_balance-either :
    (w : Wallet) (expected : ℤ) (s : World)
    → ((update_balance w expected s).1.db ≡ s.db)
      ⊎ ((r : WalletRow) × (find_wallet w.id s.db.wallets ≡ some r)
          × ((update_balance w expected s).1.db
              ≡ record s.db { wallets = replace_wallet (Wallets.updated_row w r) s.db.wallets }))
unfolding update_balance ◌>>=◌
update_balance-either w expected s =
    let s₁ = (call s).1 in
    let rest =
      λ (s₂ : World). Wallets.update_found w expected (find_wallet w.id s₂.db.wallets) s₂ in
    elim (called-either rest s) [
      | inl failed ↦ inl failed
      | inr ran ↦ elim (Option-cases (find_wallet w.id s₁.db.wallets)) [
        | inl missing ↦ inl (ap (λ x. x.1.db) ran ∙ rw missing (call-db s))
        | inr (r, found) ↦ elim (update_found-either w expected r s₁) [
          | inl same ↦ inl (ap (λ x. x.1.db) ran ∙ rw found (same ∙ call-db s))
          | inr new ↦ inr (
            r,
            rw (← call-db s) found,
            ap (λ x. x.1.db) ran
                ∙ rw found new
                ∙ ap
                    (λ (db : Db). record db {
                      wallets = replace_wallet (Wallets.updated_row w r) db.wallets;
                    })
                    (call-db s),
          )
        ]
      ]
    ]

-- No stored row has the id, the operation's identity, the key or the opened wallet of the new one.
abbrev pub IsNew : TransactionRow → List TransactionRow → Type 0
IsNew new rows =
    (has_row (has_id new.id) rows ≡ false)
    × (has_row (has_same_identity new) rows ≡ false)
    × (has_row (has_same_key new) rows ≡ false)
    × (has_row (has_same_opening new) rows ≡ false)

insert_row-either :
    (new : TransactionRow) (s : World)
    → ((insert_row new s).1.db ≡ s.db)
      ⊎ (IsNew new s.db.transactions
          × ((insert_row new s).1.db
              ≡ record s.db { transactions = s.db.transactions ++ new ∷ [] }))
unfolding insert_row ◌>>=◌
insert_row-either new s = ground arith

pub insert_transaction-either :
    (t : WagerTransaction) (s : World)
    → ((insert_transaction t s).1.db ≡ s.db)
      ⊎ (IsNew (Transactions.row_of s.db_now t) s.db.transactions
          × ((insert_transaction t s).1.db ≡ record s.db {
            transactions = s.db.transactions ++ Transactions.row_of s.db_now t ∷ [];
          }))
unfolding insert_transaction ◌>>=◌
insert_transaction-either t s = ground (
  arith,
  call-db s,
  call-db_now s,
  insert_row-either (Transactions.row_of (call s).1.db_now t) (call s).1,
)

update_found_row-either :
    (t : WagerTransaction) (r : TransactionRow) (s : World)
    → ((TransactionWrites.update_found t (some r) s).1.db ≡ s.db)
      ⊎ ((status_is_terminal r.status ≡ false)
          × ((TransactionWrites.update_found t (some r) s).1.db ≡ record s.db {
            transactions = replace_row (TransactionWrites.updated_row t r) s.db.transactions;
          }))
unfolding ◌>>=◌
update_found_row-either t r s = ground arith

pub update_transaction-either :
    (t : WagerTransaction) (s : World)
    → ((update_transaction t s).1.db ≡ s.db)
      ⊎ ((r : TransactionRow) × (find_first (has_id t.id) s.db.transactions ≡ some r)
          × (status_is_terminal r.status ≡ false)
          × ((update_transaction t s).1.db ≡ record s.db {
            transactions = replace_row (TransactionWrites.updated_row t r) s.db.transactions;
          }))
unfolding update_transaction ◌>>=◌
update_transaction-either t s =
    let s₁ = (call s).1 in
    let rest = λ (s₂ : World).
      TransactionWrites.update_found t (find_first (has_id t.id) s₂.db.transactions) s₂ in
    elim (called-either rest s) [
      | inl failed ↦ inl failed
      | inr ran ↦ elim (Option-cases (find_first (has_id t.id) s₁.db.transactions)) [
        | inl missing ↦ inl (ap (λ x. x.1.db) ran ∙ rw missing (call-db s))
        | inr (r, found) ↦ elim (update_found_row-either t r s₁) [
          | inl same ↦ inl (ap (λ x. x.1.db) ran ∙ rw found (same ∙ call-db s))
          | inr (still, new) ↦ inr (
            r,
            rw (← call-db s) found,
            still,
            ap (λ x. x.1.db) ran
                ∙ rw found new
                ∙ ap
                    (λ (db : Db). record db {
                      transactions =
                          replace_row (TransactionWrites.updated_row t r) db.transactions;
                    })
                    (call-db s),
          )
        ]
      ]
    ]

pub record_reference_attempt-either :
    (id : Uuid) (attempts : ℕ) (next : Time) (s : World)
    → ((record_reference_attempt id attempts next s).1.db ≡ s.db)
      ⊎ ((record_reference_attempt id attempts next s).1.db
          ≡ record s.db { transactions = reschedule_rows id attempts next s.db.transactions })
unfolding record_reference_attempt ◌>>=◌
record_reference_attempt-either id attempts next s = ground (arith, call-db s)

pub claim-either :
    (owner : String) (limit : ℕ) (lock_for : Duration) (now : Time) (s : World)
    → ((claim owner limit lock_for now s).1.db ≡ s.db)
      ⊎ ((claim owner limit lock_for now s).1.db
          ≡ record s.db { outbox = locked_rows owner limit lock_for now s.db.outbox })
unfolding claim ◌>>=◌
claim-either owner limit lock_for now s = ground (arith, call-db s)

pub mark_published-either :
    (id : Uuid) (now : Time) (s : World)
    → ((mark_published id now s).1.db ≡ s.db)
      ⊎ ((mark_published id now s).1.db
          ≡ record s.db { outbox = update_where (is_open id) (published now) s.db.outbox })
unfolding mark_published ◌>>=◌
mark_published-either id now s = ground (arith, call-db s)

pub reschedule-either :
    (id : Uuid) (attempts : ℕ) (next : Time) (s : World)
    → ((reschedule id attempts next s).1.db ≡ s.db)
      ⊎ ((reschedule id attempts next s).1.db ≡ record s.db {
        outbox = update_where (is_open id) (rescheduled attempts next) s.db.outbox;
      })
unfolding reschedule ◌>>=◌
reschedule-either id attempts next s = ground (arith, call-db s)
