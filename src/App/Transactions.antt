-- ===== src/App/Transactions.antt =====
-- internal/app: the database transactions of the use cases. All that the program writes, it writes in
-- one of them.
pub mod Statements
pub mod Resolver
pub mod Publisher
pub mod Reconciles
pub mod Reversals
use jungle.Base.{ℕ, String}
use jungle.Values.{Time}
use jungle.Money.Arithmetic.{IsMoney}
use jungle.Store.Action.{within}
use jungle.Store.Action.Histories.{History, Keeps}
use jungle.Store.References.{PendingReferenceRecord}
use jungle.Store.Outbox.{OutboxRecord}
use jungle.App.Settle.{NewIds}
use jungle.App.OpenWallet.{OpeningIds, OpenWalletCommand, open_new}
use jungle.App.ProcessWager.{ProcessWagerCommand, process}
use jungle.App.ResolveReferences.{ReferencePolicy, Turn, claim, settle_one, fail_body}
use jungle.App.PublishOutbox.{PublishPolicy, Surroundings, claim_batch, note_outcome}

-- Each transaction keeps a relation between the tables, whether it is committed or rolled back.
pub record Transactions (H : History) : Type 0 where
  pub opened :
      (ids : OpeningIds) (now : Time) (cmd : OpenWalletCommand)
      → IsMoney cmd.initial_balance
      → Keeps H (within (open_new ids now cmd))
  pub processed :
      (ids : NewIds) (now : Time) (cmd : ProcessWagerCommand)
      → IsMoney cmd.money
      → Keeps H (within (process ids now cmd))
  pub due :
      (policy : ReferencePolicy) (turns : ℕ → Turn) (now : Time)
      → Keeps H (within (claim policy turns now))
  pub tried :
      (policy : ReferencePolicy) (turn : Turn) (rec : PendingReferenceRecord)
      → Keeps H (settle_one policy turn rec)
  pub abandoned :
      (policy : ReferencePolicy) (turn : Turn) (rec : PendingReferenceRecord)
      → Keeps H (within (fail_body policy turn rec))
  pub claimed :
      (owner : String) (policy : PublishPolicy) (sur : Surroundings) (pass : ℕ)
      → Keeps H (within (claim_batch owner policy sur pass))
  pub noted :
      (owner : String) (policy : PublishPolicy) (sur : Surroundings) (pass i : ℕ)
      (rec : OutboxRecord)
      → Keeps H (within (note_outcome owner policy sur pass i rec))
