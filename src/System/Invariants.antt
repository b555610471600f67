-- ===== src/System/Invariants.antt =====
-- cmd/jungle: what holds of the tables, whatever the processes do and in any order.
use jungle.Store.Tables.{Db}
use jungle.Store.Reconciled.{IsReconciled}
use jungle.Store.Evolution.{Evolves}
use jungle.Store.Evolution.Statements.{evolution-Writes}
use jungle.Store.Reversals.{IsReversedOnce}
use jungle.Store.Unique.{IsUnique}
use jungle.Store.Unique.Statements.{uniqueness-Writes}
use jungle.App.Transactions.Statements.{Writes-Transactions}
use jungle.App.Transactions.Reconciles.{reconciliation-Transactions}
use jungle.App.Transactions.Reversals.{single_reversal-Transactions}
use jungle.System.{Run}
use jungle.System.Runs.{Run-Leads}

-- A run that starts on reconciled tables ends with such tables: every stored balance is the credits
-- of the wallet's ledger less its debits, the journal sums to zero, and its account for each wallet
-- agrees with the ledger.
pub Run-IsReconciled : (a b : Db) → Run a b → IsReconciled a → IsReconciled b
Run-IsReconciled = Run-Leads reconciliation-Transactions

-- A run deletes no row. It changes none of the ledger, the journal and the inbox, of a wallet only
-- the balance, the version and the time, and of a transaction only the status and what goes with it:
-- a row whose status is terminal stays as it is. An event keeps its content, and the time of its
-- publication once it has one.
pub Run-Evolves : (a b : Db) → Run a b → Evolves a b
Run-Evolves = Run-Leads (Writes-Transactions evolution-Writes)

-- A run on tables whose rows are apart ends with such tables: no two transactions share an id, an
-- idempotency key or a provider's id, or are openings of one wallet, no two ledger entries share an
-- id, or a wallet and a transaction, and no message is recorded twice for one consumer.
pub Run-IsUnique : (a b : Db) → Run a b → IsUnique a → IsUnique b
Run-IsUnique = Run-Leads (Writes-Transactions uniqueness-Writes)

-- A run on tables in which no transaction has two successful refunds or rollbacks ends with such
-- tables, whether they are processed at once or after their reference has come.
pub Run-IsReversedOnce : (a b : Db) → Run a b → IsReversedOnce a → IsReversedOnce b
Run-IsReversedOnce = Run-Leads single_reversal-Transactions
