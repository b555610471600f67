-- ===== src/System.antt =====
-- cmd/jungle: any number of processes over one database. What they write they write in
-- the transactions of the use cases, so a run of the system is a sequence of these in any order, also
-- with those of other operations between two of one. A transaction is one step: how the database
-- interleaves the statements of two of them is not modelled.
pub mod Runs
pub mod Invariants
use jungle.Base.{ℕ, String}
use jungle.Values.{Time}
use jungle.Money.Arithmetic.{IsMoney}
use jungle.Store.Tables.{Db}
use jungle.Store.Action.{World, within}
use jungle.Store.References.{PendingReferenceRecord}
use jungle.Store.Outbox.{OutboxRecord}
use jungle.App.Settle.{NewIds}
use jungle.App.OpenWallet.{OpeningIds, OpenWalletCommand, open_new}
use jungle.App.ProcessWager.{ProcessWagerCommand, process}
use jungle.App.ResolveReferences.{ReferencePolicy, Turn, claim, settle_one, fail_body}
use jungle.App.PublishOutbox.{PublishPolicy, Surroundings, claim_batch, note_outcome}

-- One transaction of some process, at any time and whatever of the database fails.
pub data Step : Db → Db → Type 0 where
  opened :
      (ids : OpeningIds) (now : Time) (cmd : OpenWalletCommand) (s : World)
      → IsMoney cmd.initial_balance
      → Step s.db (within (open_new ids now cmd) s).1.db
  processed :
      (ids : NewIds) (now : Time) (cmd : ProcessWagerCommand) (s : World)
      → IsMoney cmd.money
      → Step s.db (within (process ids now cmd) s).1.db
  due :
      (policy : ReferencePolicy) (turns : ℕ → Turn) (now : Time) (s : World)
      → Step s.db (within (claim policy turns now) s).1.db
  tried :
      (policy : ReferencePolicy) (turn : Turn) (rec : PendingReferenceRecord) (s : World)
      → Step s.db (settle_one policy turn rec s).1.db
  abandoned :
      (policy : ReferencePolicy) (turn : Turn) (rec : PendingReferenceRecord) (s : World)
      → Step s.db (within (fail_body policy turn rec) s).1.db
  claimed :
      (owner : String) (policy : PublishPolicy) (sur : Surroundings) (pass : ℕ) (s : World)
      → Step s.db (within (claim_batch owner policy sur pass) s).1.db
  noted :
      (owner : String) (policy : PublishPolicy) (sur : Surroundings) (pass i : ℕ)
      (rec : OutboxRecord) (s : World)
      → Step s.db (within (note_outcome owner policy sur pass i rec) s).1.db

pub data Run : Db → Db → Type 0 where
  here : (a : Db) → Run a a
  next : (a b c : Db) → Run a b → Step b c → Run a c
