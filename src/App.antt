-- ===== src/App.antt =====
-- internal/app: the use cases, over the repositories.
pub mod Backoff
pub mod Identity
pub mod Decide
pub mod Settle
pub mod ProcessWager
pub mod OpenWallet
pub mod ResolveReferences
pub mod PublishOutbox
pub mod Queries
pub mod Transactions
pub mod UseCases
