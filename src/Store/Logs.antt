-- ===== src/Store/Logs.antt =====
-- internal/postgres: ledger_repo.go, journal_repo.go, inbox_repo.go and the insert of
-- outbox_repo.go, over the tables of migrations/000003 to 000007 that are only added to.
use jungle.Base.{
  ℕ, String, Bool, true, false, not, ◌&&◌, ◌||◌, Option, none, some, List, [], ◌∷◌, ◌++◌, ◌==◌,
  str_eq, if◌then◌else◌, ◌+◌, codes,
}
use jungle.Values.{Uuid}
use jungle.Int.{ℤ, pos, ltb_ℤ, leb_ℤ, eqb_ℤ, ◌+ℤ◌, ◌-ℤ◌}
use jungle.Int64.{max_int64, min_int64}
use jungle.Money.{matches_currency}
use jungle.Wallet.Entry.{WalletLedgerEntry, LedgerDirection}
use jungle.Journal
use jungle.Event.{Envelope}
use jungle.Result.{infrastructure}
use jungle.Store.Tables.{LedgerRow, InboxRecord, OutboxRow}
use jungle.Store.Action.{Action, pure, gets, modify, fail_if, call, ◌>>=◌, ◌>>◌}
use jungle.Store.Wallets.{find_wallet, is_found}
use jungle.Store.Transactions.{has_row, has_id}

-- The values of the ledger's `INSERT`.
abbrev pub row_of : WalletLedgerEntry → LedgerRow
row_of e = record {
  id = e.id;
  wallet_id = e.wallet_id;
  transaction_id = e.transaction_id;
  direction = e.direction;
  amount_minor_units = e.amount.minor_units;
  balance_before_minor_units = e.balance_before.minor_units;
  balance_after_minor_units = e.balance_after.minor_units;
  created_at = e.created_at;
}

-- `wallet_ledger_entry_balance_math`
abbrev balance_math : LedgerDirection → ℤ → ℤ → ℤ → Bool
balance_math LedgerDirection.debit before amount after = eqb_ℤ after (before -ℤ amount)
balance_math LedgerDirection.credit before amount after = eqb_ℤ after (before +ℤ amount)
balance_math (LedgerDirection.other s) before amount after = false

-- The CHECK constraints of `wallet_ledger_entry`.
unfoldable pub ledger_checks : LedgerRow → Bool
ledger_checks r =
    ltb_ℤ (pos 0) r.amount_minor_units
    && not (ltb_ℤ r.balance_before_minor_units (pos 0))
    && not (ltb_ℤ r.balance_after_minor_units (pos 0))
    && balance_math r.direction r.balance_before_minor_units r.amount_minor_units
        r.balance_after_minor_units

-- A row that the primary key or `wallet_ledger_entry_wallet_transaction_unique` forbids beside `new`.
abbrev pub collides : LedgerRow → LedgerRow → Bool
collides new r =
    r.id == new.id || r.wallet_id == new.wallet_id && r.transaction_id == new.transaction_id

unfoldable pub has_collision : LedgerRow → List LedgerRow → Bool
has_collision new [] = false
has_collision new (r ∷ rows) = collides new r || has_collision new rows

-- `ledgerRepo.Insert`
unfoldable pub insert_ledger : WalletLedgerEntry → Action (Unit {0})
insert_ledger e = do
  call
  rows ← gets (λ db. db.ledger)
  wallets ← gets (λ db. db.wallets)
  transactions ← gets (λ db. db.transactions)
  fail_if (not (ledger_checks (row_of e))) infrastructure
  fail_if (has_collision (row_of e) rows) infrastructure
  fail_if (not (is_found (find_wallet e.wallet_id wallets))) infrastructure
  fail_if (not (has_row (has_id e.transaction_id) transactions)) infrastructure
  modify (λ db. record db { ledger = db.ledger ++ row_of e ∷ [] })

abbrev pub is_credit : LedgerDirection → Bool
is_credit LedgerDirection.credit = true
is_credit _ = false

abbrev pub is_debit : LedgerDirection → Bool
is_debit LedgerDirection.debit = true
is_debit _ = false

-- The three aggregates of `Totals`: the credits, the debits and the number of a wallet's rows.
abbrev pub counted : (LedgerDirection → Bool) → Uuid → LedgerRow → ℤ
counted side id r = if r.wallet_id == id && side r.direction then r.amount_minor_units else pos 0

unfoldable pub credits : Uuid → List LedgerRow → ℤ
credits id [] = pos 0
credits id (r ∷ rows) = counted is_credit id r +ℤ credits id rows

unfoldable pub debits : Uuid → List LedgerRow → ℤ
debits id [] = pos 0
debits id (r ∷ rows) = counted is_debit id r +ℤ debits id rows

unfoldable pub entries : Uuid → List LedgerRow → ℕ
entries id [] = 0
entries id (r ∷ rows) = (if r.wallet_id == id then 1 else 0) + entries id rows

-- Whether a sum, which the database computes exactly, can be scanned into an int64.
abbrev pub is_int64 : ℤ → Bool
is_int64 n = leb_ℤ n max_int64 && leb_ℤ min_int64 n

-- `Totals`
unfoldable pub totals : Uuid → Action (ℤ × ℤ × ℕ)
totals id = do
  call
  rows ← gets (λ db. db.ledger)
  fail_if (not (is_int64 (credits id rows) && is_int64 (debits id rows))) infrastructure
  pure (credits id rows, debits id rows, entries id rows)

-- The CHECK constraints of `journal_entry`.
unfoldable pub journal_checks : Journal.Entry → Bool
journal_checks e =
    Journal.is_direction e.direction
    && ltb_ℤ (pos 0) e.amount.minor_units
    && matches_currency (codes e.amount.currency)

unfoldable pub has_entry : Uuid → List Journal.Entry → Bool
has_entry id [] = false
has_entry id (e ∷ es) = e.id == id || has_entry id es

abbrev pub insert_entry : Journal.Entry → Action (Unit {0})
insert_entry e = do
  call
  rows ← gets (λ db. db.journal)
  transactions ← gets (λ db. db.transactions)
  fail_if (not (journal_checks e)) infrastructure
  fail_if (has_entry e.id rows) infrastructure
  fail_if (not (has_row (has_id e.transaction_id) transactions)) infrastructure
  modify (λ db. record db { journal = db.journal ++ e ∷ [] })

-- `journalRepo.Insert`: one statement for each entry.
unfoldable pub insert_journal : List Journal.Entry → Action (Unit {0})
insert_journal [] = pure tt
insert_journal (e ∷ es) = let rest = insert_journal es in insert_entry e >> rest

abbrev pub is_message : String → String → InboxRecord → Bool
is_message consumer message r = str_eq r.consumer_name consumer && str_eq r.message_id message

unfoldable pub find_message : String → String → List InboxRecord → Option InboxRecord
find_message consumer message [] = none
find_message consumer message (r ∷ rows) =
    if is_message consumer message r then some r else find_message consumer message rows

-- `inboxRepo.Get`
unfoldable pub get_inbox : String → String → Action (Option InboxRecord)
get_inbox consumer message = do call; gets (λ db. find_message consumer message db.inbox)

abbrev is_recorded : Option InboxRecord → Bool
is_recorded none = false
is_recorded (some r) = true

-- `inboxRepo.Insert`; the primary key is the consumer's name with the message's id.
unfoldable pub insert_inbox : InboxRecord → Action (Unit {0})
insert_inbox new = do
  call
  rows ← gets (λ db. db.inbox)
  transactions ← gets (λ db. db.transactions)
  fail_if (is_recorded (find_message new.consumer_name new.message_id rows)) infrastructure
  fail_if (not (has_row (has_id new.wager_transaction_id) transactions)) infrastructure
  modify (λ db. record db { inbox = db.inbox ++ new ∷ [] })

-- The values of the outbox's `INSERT`.
abbrev pub outbox_row : Envelope → OutboxRow
outbox_row e = record {
  event = e;
  attempts = 0;
  next_attempt_at = e.occurred_at;
  published_at = none;
  locked_by = none;
  locked_until = none;
}

unfoldable pub has_event : Uuid → List OutboxRow → Bool
has_event id [] = false
has_event id (r ∷ rows) = r.event.event_id == id || has_event id rows

abbrev pub insert_event : Envelope → Action (Unit {0})
insert_event e = do
  call
  rows ← gets (λ db. db.outbox)
  fail_if (has_event e.event_id rows) infrastructure
  modify (λ db. record db { outbox = db.outbox ++ outbox_row e ∷ [] })

-- `outboxRepo.Insert`: one statement for each event.
unfoldable pub insert_outbox : List Envelope → Action (Unit {0})
insert_outbox [] = pure tt
insert_outbox (e ∷ es) = let rest = insert_outbox es in insert_event e >> rest
