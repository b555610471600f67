-- ===== src/Lib.antt =====
-- A model of the wallet and wager service in Go under internal/, and what has been proved of it.
--
-- The program moves money between the wallets of players and the providers of games. A command
-- (over HTTP or from a queue) reports a bet, win, loss, refund or rollback; `ProcessWager.Execute`
-- of internal/app/process_wager.go looks for an earlier record of the same operation, decides what
-- becomes of the new one, and writes, in one database transaction, the wager transaction, the new
-- balance of the wallet, an entry of its ledger, a double entry of the journal, the inbox record of
-- the message and the events of the outbox.
--
-- Files and code:
--   Money, Money/Decimal, Money/Overflow    internal/domain/money/money.go
--   Wallet, Wallet/Entry                    internal/domain/wallet/wallet.go, ledger_entry.go
--   Wagertx, Wagertx/Constants              internal/domain/wagertx/
--   Journal                                 internal/domain/journal/journal.go
--   Event                                   internal/domain/event/event.go
--   Store/Action                            UnitOfWork.Within of internal/postgres/repos.go
--   Store/Tables, Store/Wallets, Store/Transactions, Store/TransactionWrites, Store/Logs
--                                           internal/postgres/*_repo.go over migrations/
--   Store/References, Store/Outbox, Store/Ledger, Store/Journals, Store/Select
--                                           the claims and pages of internal/postgres/*_repo.go
--   App/Decide, App/Settle, App/ProcessWager    internal/app/process_wager.go
--   App/OpenWallet                          internal/app/open_wallet.go
--   App/ResolveReferences, App/Backoff      internal/app/resolve_references.go
--   App/PublishOutbox, App/Backoff          internal/app/publish_outbox.go
--   App/Queries, App/Identity               internal/app/queries.go, identity.go, idempotency.go
--   Http/Dto, Http/Auth, Http/Errors, Http/Handlers    internal/httpapi/
--   Http/Router                             internal/httpapi/module.go, auth.go, internal/router/router.go
--   Queue, Queue/Batch, Queue/Loop          internal/queue/consumer.go
--   Worker                                  internal/worker/worker.go
--   Config, Int32                           internal/config/config.go
--   App/Transactions, App/UseCases          the database transactions of internal/app, and what runs them
--   System                                  the processes of cmd/jungle over one database
-- The HTTP handlers and the queue's consumer build the command of a use case and answer for its
-- result; the use cases run on the repositories of Store. A reversal whose reference is not known
-- yet is parked, and taken up again by the runs of ResolveReferences; the events that every use case
-- leaves in the outbox are published by the runs of PublishOutbox. A run of System is any sequence of
-- the database transactions of these, whichever process each belongs to.
--
-- A property of all runs is a History (Store/Action/Histories): a reflexive and transitive relation
-- between the tables before and after. Store/Statements lists what each SQL statement owes to it,
-- App/Transactions what each database transaction does; the files Histories take the one to the
-- other, and System/Runs takes the transactions to the requests, messages and runs.
--
-- The other files of these folders hold lemmas and theorems, Examples runs and witnesses, Base, Int,
-- Int64, Result and Values the types that the parts share. A Go function `NewMovement` is
-- `new_movement` here, a method `w.Debit` is `Wallet.debit w`.
--
-- How the code is read:
--   * int64 arithmetic is done on integers (a constructor for n and one for -(n + 1), over the
--     native numbers) and wrapped around at 2 ^ 63. The text of an amount is a list of bytes.
--   * Packages outside the program appear by what the code relies on: a UUID is a number of which
--     equality and the nil value matter, a time the nanoseconds since the zero time. The values of
--     `uuid.New()` and of the clock are arguments of the use cases.
--   * `(value, error)` is Result; an error is the variable that it wraps, and `infrastructure` stands
--     for one that wraps none. A method with a pointer receiver returns the new value.
--   * A table is a list of rows, with the CHECK, unique and foreign key constraints of the
--     migrations that an insert can meet. A use case is a function on World: the tables, the
--     database's clock, and a list that says which of the calls to come fail. A commit that
--     returns an error has not committed; a failed call leaves its transaction usable, where the
--     database would fail the calls after it too.
--   * Loops follow a list, but for those that print digits, which take as fuel the number itself
--     and one more, enough since each round divides by 10, and for the passes of a run of the
--     publisher, which the policy bounds.
--   * What a run takes from outside (times, new UUIDs, the answers of the publisher, whether its
--     context has ended) is an argument, by the place of the record that it is for.
--
-- Not modelled: row locks (database transactions run one after another, so that no row is skipped),
-- the deferred trigger that checks the journal at commit, JSON but for the fields that it carries,
-- the discovery of the token's issuer, how the web framework matches a path, the calls of the
-- queue's client (what they return, and whether a message is deleted, is an argument), tracing,
-- metrics, the health probes, the publisher's encoding of events, and start-up and shut-down.
pub mod App
pub mod Base
pub mod Config
pub mod Event
pub mod Examples
pub mod Http
pub mod Int
pub mod Int32
pub mod Int64
pub mod Journal
pub mod Money
pub mod Queue
pub mod Result
pub mod Store
pub mod System
pub mod Values
pub mod Wagertx
pub mod Wallet
pub mod Worker
