-- ===== src/Store/Evolution.antt =====
-- internal/postgres: how the tables may change, one statement after the other.
pub mod Rows
pub mod Statements
use jungle.Base.{
  ℕ, String, ◌≡◌, refl, sym, ap, ◌∙◌, ◌++◌, List, [], ◌∷◌, Option, none, some, Bool, true, false,
  arith, Extends, Extends-refl, Extends-append, Extends-trans,
}
use jungle.Values.{Time}
use jungle.Int.{pos}
use jungle.Wagertx.Constants.{Status, status_is_terminal}
use jungle.Journal
use jungle.Store.Tables.{Db, WalletRow, TransactionRow, LedgerRow, InboxRecord, OutboxRow}
use jungle.Store.Outbox.{is_unpublished}
use jungle.Store.Action.Histories.{History}

-- The columns of a wallet but its balance, its version and the time of the last change.
abbrev pub frozen_wallet : WalletRow → WalletRow
frozen_wallet r = record r { balance_minor_units = pos 0; version = pos 0; updated_at = 0 }

-- The columns of a transaction that are written once: all but the status and what goes with it, the
-- resolved reference and the retries.
abbrev pub frozen : TransactionRow → TransactionRow
frozen r = record r {
  status = Status.pending;
  reference_transaction_id = none;
  failure_code = none;
  resulting_balance_minor_units = none;
  updated_at = 0;
  reference_attempts = 0;
  reference_next_attempt_at = 0;
}

-- How a row may go on. A transaction that is settled does not change any more, and an
-- event that is published keeps the
-- time of its publication.
abbrev pub SameWallet : WalletRow → WalletRow → Type 0
SameWallet r r' = frozen_wallet r' ≡ frozen_wallet r

abbrev pub SameOperation : TransactionRow → TransactionRow → Type 0
SameOperation r r' = (frozen r' ≡ frozen r) × (status_is_terminal r.status ≡ true → r' ≡ r)

abbrev pub SameEvent : OutboxRow → OutboxRow → Type 0
SameEvent r r' =
    (r'.event ≡ r.event) × (is_unpublished r ≡ false → r'.published_at ≡ r.published_at)

-- No row is deleted, rows go on as they may, and those of the ledger, the journal and the inbox are
-- never changed.
pub record Evolves (a b : Db) : Type 0 where
  pub wallets : Extends SameWallet a.wallets b.wallets
  pub transactions : Extends SameOperation a.transactions b.transactions
  pub ledger : Extends (◌≡◌ {A = LedgerRow}) a.ledger b.ledger
  pub inbox : Extends (◌≡◌ {A = InboxRecord}) a.inbox b.inbox
  pub outbox : Extends SameEvent a.outbox b.outbox
  pub journal : Extends (◌≡◌ {A = Journal.Entry}) a.journal b.journal

pub SameOperation-refl : (r : TransactionRow) → SameOperation r r
SameOperation-refl r = (refl, λ _. refl)

pub SameOperation-trans :
    (r r' r'' : TransactionRow) → SameOperation r r' → SameOperation r' r'' → SameOperation r r''
SameOperation-trans r r' r'' (p, q) (p', q') =
    (p' ∙ p, λ h. q' (ap (λ x. status_is_terminal x.status) (q h) ∙ h) ∙ q h)

pub SameEvent-refl : (r : OutboxRow) → SameEvent r r
SameEvent-refl r = (refl, λ _. refl)

SameEvent-trans : (r r' r'' : OutboxRow) → SameEvent r r' → SameEvent r' r'' → SameEvent r r''
SameEvent-trans r r' r'' (p, q) (p', q') =
    (p' ∙ p, λ h. q' (told r.published_at r'.published_at (q h) h) ∙ q h)
  where
    told :
        (a b : Option Time)
        → b ≡ a
        → (elim a [ none ↦ true | some t ↦ false ]) ≡ false
        → (elim b [ none ↦ true | some t ↦ false ]) ≡ false
    told a b e h = rw e h

pub Evolves-refl : (db : Db) → Evolves db db
Evolves-refl db = record {
  wallets = Extends-refl SameWallet (λ r. refl) db.wallets;
  transactions = Extends-refl SameOperation SameOperation-refl db.transactions;
  ledger = Extends-refl ◌≡◌ (λ r. refl) db.ledger;
  inbox = Extends-refl ◌≡◌ (λ r. refl) db.inbox;
  outbox = Extends-refl SameEvent SameEvent-refl db.outbox;
  journal = Extends-refl ◌≡◌ (λ r. refl) db.journal;
}

pub Evolves-trans : (a b c : Db) → Evolves a b → Evolves b c → Evolves a c
Evolves-trans a b c h k = record {
  wallets =
      Extends-trans SameWallet (λ x y z p q. q ∙ p) a.wallets b.wallets c.wallets h.wallets
        k.wallets;
  transactions =
      Extends-trans SameOperation SameOperation-trans a.transactions b.transactions c.transactions
        h.transactions k.transactions;
  ledger = Extends-trans ◌≡◌ (λ x y z p q. p ∙ q) a.ledger b.ledger c.ledger h.ledger k.ledger;
  inbox = Extends-trans ◌≡◌ (λ x y z p q. p ∙ q) a.inbox b.inbox c.inbox h.inbox k.inbox;
  outbox = Extends-trans SameEvent SameEvent-trans a.outbox b.outbox c.outbox h.outbox k.outbox;
  journal =
      Extends-trans ◌≡◌ (λ x y z p q. p ∙ q) a.journal b.journal c.journal h.journal k.journal;
}

abbrev pub evolution : History
evolution = record { Leads = Evolves; stay = Evolves-refl; join = Evolves-trans }
