-- ===== src/Store.antt =====
-- The database: its tables, and the repositories of internal/postgres over them.
pub mod Tables
pub mod Action
pub mod Wallets
pub mod Transactions
pub mod TransactionWrites
pub mod Logs
pub mod Effects
pub mod Reconciled
pub mod Reversals
pub mod Select
pub mod Journals
pub mod References
pub mod Outbox
pub mod Ledger
pub mod Outcomes
pub mod Evolution
pub mod Unique
pub mod Statements
