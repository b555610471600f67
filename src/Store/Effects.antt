-- ===== src/Store/Effects.antt =====
-- internal/postgres: what a successful call of a repository changes in the tables, and that every
-- read leaves them alone.
use jungle.Base.{
  none, inl, inr, Option-cases, ◌≡◌, ◌∷◌, [], ◌++◌, arith, Bool, some, List, map, String,
}
use mathlib.Core.List.{append-nil, append_assoc}
use jungle.Int.{ℤ, pos, ◌≤ℤ◌, eq_of_parts}
use jungle.Values.{Uuid}
use jungle.Result.{ok}
use jungle.Store.Tables.{WalletRow, InboxRecord, TransactionRow}
use jungle.Store.Action.{World, ◌>>=◌, call}
use jungle.Store.Action.Laws.{call-db, call-db_now, >>=-eq-ok}
use jungle.Wallet.{Wallet}
use jungle.Wallet.Entry.{WalletLedgerEntry}
use jungle.Wagertx.{WagerTransaction}
use jungle.Event.{Envelope}
use jungle.Journal.{Entry}
use jungle.Money.{Currency}
use jungle.Store.Wallets
use jungle.Store.Wallets.{
  insert_wallet, exists_for_player_currency, get_wallet, update_balance, update_found, find_wallet,
  replace_wallet, updated_row,
}
use jungle.Store.Transactions
use jungle.Store.Transactions.{scan_one, has_successful_reversal, find_first, to_domain}
use jungle.Store.TransactionWrites.{insert_transaction, insert_row}
use jungle.Store.Logs
use jungle.Store.Logs.{
  insert_ledger, insert_journal, insert_inbox, insert_outbox, get_inbox, outbox_row, insert_entry,
  insert_event,
}

pub insert_ledger-db :
    (e : WalletLedgerEntry) (s s' : World)
    → insert_ledger e s ≡ (ok tt, s')
    → s'.db ≡ record s.db { ledger = s.db.ledger ++ Logs.row_of e ∷ [] }
unfolding insert_ledger ◌>>=◌
insert_ledger-db e s s' h = ground (arith, call-db s)

pub insert_inbox-db :
    (r : InboxRecord) (s s' : World)
    → insert_inbox r s ≡ (ok tt, s')
    → s'.db ≡ record s.db { inbox = s.db.inbox ++ r ∷ [] }
unfolding insert_inbox ◌>>=◌
insert_inbox-db r s s' h = ground (arith, call-db s)

insert_row-db :
    (r : TransactionRow) (s s' : World)
    → insert_row r s ≡ (ok tt, s')
    → s'.db ≡ record s.db { transactions = s.db.transactions ++ r ∷ [] }
unfolding insert_row ◌>>=◌
insert_row-db r s s' h = ground arith

pub insert_transaction-db :
    (t : WagerTransaction) (s s' : World)
    → insert_transaction t s ≡ (ok tt, s')
    → s'.db
      ≡ record s.db { transactions = s.db.transactions ++ Transactions.row_of s.db_now t ∷ [] }
unfolding insert_transaction ◌>>=◌
insert_transaction-db t s s' h = ground (
  arith,
  call-db s,
  call-db_now s,
  insert_row-db (Transactions.row_of (call s).1.db_now t) (call s).1 s',
)

update_found-db :
    (w : Wallet) (expected : ℤ) (r : WalletRow) (s s' : World)
    → update_found w expected (some r) s ≡ (ok tt, s')
    → (r.version ≡ expected)
      × (pos 0 ≤ℤ w.balance.minor_units)
      × (s'.db ≡ record s.db { wallets = replace_wallet (updated_row w r) s.db.wallets })
unfolding ◌>>=◌
update_found-db w expected r s s' h = ground (arith, eq_of_parts r.version expected)

-- The wallet's row had the expected version.
pub update_balance-db :
    (w : Wallet) (expected : ℤ) (s s' : World)
    → update_balance w expected s ≡ (ok tt, s')
    → (r : WalletRow) × (find_wallet w.id s.db.wallets ≡ some r)
      × (r.version ≡ expected)
      × (pos 0 ≤ℤ w.balance.minor_units)
      × (s'.db ≡ record s.db { wallets = replace_wallet (updated_row w r) s.db.wallets })
unfolding update_balance ◌>>=◌
update_balance-db w expected s s' h =
    let s₁ = (call s).1 in
    elim (Option-cases (find_wallet w.id s₁.db.wallets)) [
      | inl missing ↦ absurd (ground (arith, missing))
      | inr (r, found) ↦
          let (version, nonneg, after) =
            update_found-db w expected r s₁ s' (ground (arith, found)) in
          (r, rw (← call-db s) found, version, nonneg, rw (← call-db s) after)
    ]

insert_entry-db :
    (e : Entry) (s s' : World)
    → insert_entry e s ≡ (ok tt, s')
    → s'.db ≡ record s.db { journal = s.db.journal ++ e ∷ [] }
unfolding ◌>>=◌
insert_entry-db e s s' h = ground (arith, call-db s)

insert_event-db :
    (e : Envelope) (s s' : World)
    → insert_event e s ≡ (ok tt, s')
    → s'.db ≡ record s.db { outbox = s.db.outbox ++ outbox_row e ∷ [] }
unfolding ◌>>=◌
insert_event-db e s s' h = ground (arith, call-db s)

pub get_wallet-db : (id : Uuid) (s : World) → (get_wallet id s).1.db ≡ s.db
unfolding get_wallet ◌>>=◌
get_wallet-db id s = ground (arith, call-db s)

pub scan_one-db : (p : TransactionRow → Bool) (s : World) → (scan_one p s).1.db ≡ s.db
unfolding scan_one ◌>>=◌
scan_one-db p s = ground (arith, call-db s)

-- A transaction that a query finds is read from a stored row.
pub scan_one-eq-ok :
    (p : TransactionRow → Bool) (s : World) (t : WagerTransaction) (s' : World)
    → scan_one p s ≡ (ok t, s')
    → (row : TransactionRow) × (find_first p s.db.transactions ≡ some row) × (to_domain row ≡ ok t)
unfolding scan_one ◌>>=◌
scan_one-eq-ok p s t s' h =
    let s₁ = (call s).1 in
    elim (Option-cases (find_first p s₁.db.transactions)) [
      | inl missing ↦ absurd (ground (arith, missing))
      | inr (row, found) ↦ (row, rw (← call-db s) found, ground (arith, found))
    ]

pub has_successful_reversal-db :
    (id : Uuid) (s : World) → (has_successful_reversal id s).1.db ≡ s.db
unfolding has_successful_reversal ◌>>=◌
has_successful_reversal-db id s = ground (arith, call-db s)

pub get_inbox-db : (c m : String) (s : World) → (get_inbox c m s).1.db ≡ s.db
unfolding get_inbox ◌>>=◌
get_inbox-db c m s = ground (arith, call-db s)

pub insert_journal-db :
    (es : List Entry) (s s' : World)
    → insert_journal es s ≡ (ok tt, s')
    → s'.db ≡ record s.db { journal = s.db.journal ++ es }
unfolding insert_journal ◌>>=◌
insert_journal-db [] s s' h = rw append-nil (ground arith)
insert_journal-db (e ∷ es) s s' h =
    let (_, s₁, first, rest) = >>=-eq-ok (insert_entry e) (λ _. insert_journal es) s h in
    rw (insert_journal-db es s₁ s' rest, insert_entry-db e s s₁ first, append_assoc)

pub insert_outbox-db :
    (es : List Envelope) (s s' : World)
    → insert_outbox es s ≡ (ok tt, s')
    → s'.db ≡ record s.db { outbox = s.db.outbox ++ map outbox_row es }
unfolding insert_outbox ◌>>=◌
insert_outbox-db [] s s' h = rw append-nil (ground arith)
insert_outbox-db (e ∷ es) s s' h =
    let (_, s₁, first, rest) = >>=-eq-ok (insert_event e) (λ _. insert_outbox es) s h in
    rw (insert_outbox-db es s₁ s' rest, insert_event-db e s s₁ first, append_assoc)

-- The id of a wallet that was inserted was new.
pub insert_wallet-db :
    (w : Wallet) (s s' : World)
    → insert_wallet w s ≡ (ok tt, s')
    → (find_wallet w.id s.db.wallets ≡ none)
      × (s'.db ≡ record s.db { wallets = s.db.wallets ++ Wallets.row_of w ∷ [] })
unfolding insert_wallet ◌>>=◌
insert_wallet-db w s s' h =
    let s₁ = (call s).1 in
    elim (Option-cases (find_wallet w.id s₁.db.wallets)) [
      | inl fresh ↦ (rw (← call-db s) fresh, ground (arith, call-db s))
      | inr (r, found) ↦ absurd (ground (arith, found))
    ]

pub exists_for_player_currency-db :
    (player : Uuid) (c : Currency) (s : World) → (exists_for_player_currency player c s).1.db ≡ s.db
unfolding exists_for_player_currency ◌>>=◌
exists_for_player_currency-db player c s = ground (arith, call-db s)
