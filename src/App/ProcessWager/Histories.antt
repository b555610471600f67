-- ===== src/App/ProcessWager/Histories.antt =====
-- internal/app/process_wager.go: the transaction keeps what every statement keeps.
use jungle.Base.{Option, none, some}
use jungle.Values.{Uuid, Time}
use jungle.Wallet.{Wallet}
use jungle.Wagertx.{WagerTransaction}
use jungle.Store.Tables.{InboxRecord}
use jungle.Store.Action.Histories.{History, Keeps, Keeps-read}
use jungle.Store.Wallets.{get_wallet}
use jungle.Store.Transactions.{has_id, has_key, has_identity}
use jungle.Store.TransactionWrites.{insert_transaction}
use jungle.Store.Effects.{get_wallet-db}
use jungle.Store.Statements.{Writes, keeps_rules}
use jungle.App.Decide.Histories.{scan_one-Keeps, optional-Keeps, decide-Keeps}
use jungle.App.Settle.{NewIds}
use jungle.App.Settle.Histories.{settle-Keeps}
use jungle.App.ProcessWager.{
  ProcessWagerCommand, record_inbox, replay, process_new, meta_of, message, by_identity, by_key,
  by_message, process,
}
use jungle.App.ProcessWager.Branches.{message-db}

module _ {H : History} (writes : Writes H) (ids : NewIds) (now : Time)
    (cmd : ProcessWagerCommand) where
  record_inbox-Keeps : (id : Uuid) → Keeps H (record_inbox cmd id now)
  unfolding record_inbox
  record_inbox-Keeps id = search (keeps_rules, writes.message)

  replay-Keeps : (t : WagerTransaction) → Keeps H (replay ids now cmd t)
  unfolding replay
  replay-Keeps t = search (keeps_rules, record_inbox-Keeps)

  process_new-Keeps : (w : Wallet) → Keeps H (process_new ids now cmd w)
  unfolding process_new
  process_new-Keeps w =
      search
        (
          keeps_rules,
          decide-Keeps,
          settle-Keeps writes ids (meta_of ids now cmd) now insert_transaction writes.transaction,
          record_inbox-Keeps,
        )
        depth 20

  by_identity-Keeps :
      (w : Wallet) (o : Option WagerTransaction) → Keeps H (by_identity ids now cmd w o)
  by_identity-Keeps w none = process_new-Keeps w
  by_identity-Keeps w (some t) = search (keeps_rules, replay-Keeps)

  by_key-Keeps : (w : Wallet) (o : Option WagerTransaction) → Keeps H (by_key ids now cmd w o)
  by_key-Keeps w none = search (
    keeps_rules,
    optional-Keeps (has_identity cmd.provider_id cmd.external_transaction_id),
    by_identity-Keeps,
  )
  by_key-Keeps w (some t) = search (keeps_rules, replay-Keeps)

  by_message-Keeps : (w : Wallet) (o : Option InboxRecord) → Keeps H (by_message ids now cmd w o)
  by_message-Keeps w none =
      search (keeps_rules, optional-Keeps (has_key cmd.idempotency_key), by_key-Keeps)
  by_message-Keeps w (some rec) =
      search (keeps_rules, scan_one-Keeps (has_id rec.wager_transaction_id))

  pub process-Keeps : Keeps H (process ids now cmd)
  unfolding process
  process-Keeps =
      search
        (
          keeps_rules,
          Keeps-read (get_wallet cmd.wallet_id) (get_wallet-db cmd.wallet_id),
          Keeps-read (message cmd) (message-db cmd),
          by_message-Keeps,
        )
        depth 20
