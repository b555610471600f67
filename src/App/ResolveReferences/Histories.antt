-- ===== src/App/ResolveReferences/Histories.antt =====
-- internal/app/resolve_references.go: the transactions keep what every statement keeps.
use jungle.Base.{ℕ}
use jungle.Values.{Time}
use jungle.Wallet.{Wallet}
use jungle.Wagertx.{WagerTransaction}
use jungle.Store.Action.Histories.{History, Keeps, Keeps-read}
use jungle.Store.Wallets.{get_wallet}
use jungle.Store.Transactions.{has_id}
use jungle.Store.TransactionWrites.{update_transaction}
use jungle.Store.References.{
  PendingReferenceRecord, claim_pending_reference, count_pending_reference,
}
use jungle.Store.References.Writes.{claim_pending_reference-db, count_pending_reference-db}
use jungle.Store.Effects.{get_wallet-db}
use jungle.Store.Statements.{Writes, keeps_rules, insert_outbox-Keeps}
use jungle.App.Decide.{Decision, DecisionKind}
use jungle.App.Decide.Histories.{scan_one-Keeps, decide_reversal-Keeps}
use jungle.App.Settle.Histories.{settle-Keeps, reject-Keeps}
use jungle.App.ResolveReferences.{
  ReferencePolicy, Turn, meta_at, give_up, carry_out, settle_decided, settle_awaiting, settle_read,
  settle_one, fail_awaiting, fail_read, fail_body, claim, batch_size,
}

module _ {H : History} (writes : Writes H) (policy : ReferencePolicy) where
  module _ (turn : Turn) (rec : PendingReferenceRecord) where
    give_up-Keeps : (t : WagerTransaction) (w : Wallet) → Keeps H (give_up policy turn rec t w)
    give_up-Keeps t w = search (
      keeps_rules,
      reject-Keeps writes turn.ids (meta_at turn.correlation_id turn.now) turn.now
          update_transaction writes.update,
    )

    carry_out-Keeps :
        (t : WagerTransaction) (w : Wallet) (d : Decision)
        → Keeps H (carry_out policy turn rec t w d)
    carry_out-Keeps t w d = search (
      keeps_rules,
      settle-Keeps writes turn.ids (meta_at turn.correlation_id turn.now) turn.now
          update_transaction writes.update,
    )

    settle_decided-Keeps :
        (t : WagerTransaction) (w : Wallet) (d : Decision) (k : DecisionKind)
        → Keeps H (settle_decided policy turn rec t w d k)
    settle_decided-Keeps t w d DecisionKind.process = carry_out-Keeps t w d
    settle_decided-Keeps t w d DecisionKind.reject = carry_out-Keeps t w d
    settle_decided-Keeps t w d DecisionKind.pending_reference =
        search (keeps_rules, writes.attempt, give_up-Keeps)

    settle_awaiting-Keeps : (t : WagerTransaction) → Keeps H (settle_awaiting policy turn rec t)
    unfolding settle_awaiting
    settle_awaiting-Keeps t = search (
      keeps_rules,
      Keeps-read (get_wallet t.wallet_id) (get_wallet-db t.wallet_id),
      decide_reversal-Keeps,
      settle_decided-Keeps,
    )

    settle_read-Keeps : (t : WagerTransaction) → Keeps H (settle_read policy turn rec t)
    settle_read-Keeps t = search (keeps_rules, settle_awaiting-Keeps)

    pub settle_one-Keeps : Keeps H (settle_one policy turn rec)
    unfolding settle_one
    settle_one-Keeps =
        search (keeps_rules, scan_one-Keeps (has_id rec.transaction.id), settle_read-Keeps)

    fail_awaiting-Keeps : (t : WagerTransaction) → Keeps H (fail_awaiting policy turn rec t)
    unfolding fail_awaiting
    fail_awaiting-Keeps t = search (keeps_rules, writes.update, insert_outbox-Keeps writes) depth 15

    fail_read-Keeps : (t : WagerTransaction) → Keeps H (fail_read policy turn rec t)
    fail_read-Keeps t = search (keeps_rules, fail_awaiting-Keeps)

    pub fail_body-Keeps : Keeps H (fail_body policy turn rec)
    fail_body-Keeps =
        search (keeps_rules, scan_one-Keeps (has_id rec.transaction.id), fail_read-Keeps)

-- The claim only reads.
module _ {H : History} (policy : ReferencePolicy) (turns : ℕ → Turn) where
  pub claim-Keeps : (now : Time) → Keeps H (claim policy turns now)
  claim-Keeps now = search (
    keeps_rules,
    Keeps-read count_pending_reference count_pending_reference-db,
    Keeps-read (claim_pending_reference (batch_size policy turns) now)
        (claim_pending_reference-db (batch_size policy turns) now),
  )
