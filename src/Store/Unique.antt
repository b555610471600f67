-- ===== src/Store/Unique.antt =====
-- internal/postgres: the keys of migrations/000002 to 000004, which no two rows share.
pub mod Statements
use jungle.Base.{Bool, List, Distinct}
use jungle.Store.Tables.{Db, TransactionRow, InboxRecord}
use jungle.Store.Transactions.{has_id}
use jungle.Store.TransactionWrites.{has_same_identity, has_same_key, has_same_opening}
use jungle.Store.Logs.{collides, is_message}
use jungle.Store.Action.Histories.{History}

abbrev pub has_same_id : TransactionRow → TransactionRow → Bool
has_same_id new r = has_id new.id r

abbrev pub is_same_message : InboxRecord → InboxRecord → Bool
is_same_message new r = is_message new.consumer_name new.message_id r

-- No two transactions have one id, one idempotency key or one provider's id, and no two are openings
-- of one wallet.
abbrev pub AreApart : List TransactionRow → Type 0
AreApart rows =
    Distinct has_same_id rows
    × Distinct has_same_identity rows
    × Distinct has_same_key rows
    × Distinct has_same_opening rows

-- Nor do two ledger entries have one id, or one wallet and one transaction, nor two records of the
-- inbox one consumer's message.
abbrev pub IsUnique : Db → Type 0
IsUnique db =
    AreApart db.transactions × Distinct collides db.ledger × Distinct is_same_message db.inbox

-- Tables whose rows are apart lead to such tables.
abbrev pub uniqueness : History
uniqueness = record {
  Leads = λ a b. IsUnique a → IsUnique b;
  stay = λ db h. h;
  join = λ a b c f g h. g (f h);
}
