-- ===== src/Examples.antt =====
-- Runs of the development on concrete data, and each theorem with hypotheses at such data.
mod Amounts
mod Wallets
mod Wagers
mod Journals
mod Executions
mod Replays
mod Settlements
mod Reversals
mod Openings
mod References
mod Publishing
mod Requests
mod Calls
mod Runs
mod Settings
