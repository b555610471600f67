-- ===== src/App/Settle/Histories.antt =====
-- internal/app/process_wager.go: `settle` keeps what every statement keeps.
use jungle.Values.{Time}
use jungle.Wallet.{Wallet}
use jungle.Wallet.Entry.{LedgerDirection}
use jungle.Event.{Meta}
use jungle.Wagertx.{WagerTransaction}
use jungle.Wagertx.Constants.{FailureCode}
use jungle.Result.{Result, ok, err}
use jungle.Store.Action.Histories.{History, Keeps}
use jungle.Store.Statements.{Writes, keeps_rules, insert_journal-Keeps, insert_outbox-Keeps}
use jungle.App.Decide.{Decision, DecisionKind}
use jungle.App.Settle.{
  NewIds, Save, record_double_entry, reject, park, note, book, move_funds, settle_kind, settle,
}

module _ {H : History} (writes : Writes H) (ids : NewIds) (m : Meta) (now : Time) (save : Save)
    (saves : (t : WagerTransaction) → Keeps H (save t)) where
  record_double_entry-Keeps :
      (t : WagerTransaction) (d : LedgerDirection) → Keeps H (record_double_entry ids t d now)
  unfolding record_double_entry
  record_double_entry-Keeps t d = search (keeps_rules, insert_journal-Keeps writes)

  pub reject-Keeps :
      (t : WagerTransaction) (w : Wallet) (code : FailureCode)
      → Keeps H (reject ids m now save t w code)
  unfolding reject
  reject-Keeps t w code = search (keeps_rules, saves, insert_outbox-Keeps writes) depth 20

  park-Keeps : (t : WagerTransaction) (w : Wallet) → Keeps H (park ids m now save t w)
  unfolding park
  park-Keeps t w = search (keeps_rules, saves, insert_outbox-Keeps writes) depth 20

  note-Keeps : (t : WagerTransaction) (w : Wallet) → Keeps H (note ids m now save t w)
  unfolding note
  note-Keeps t w = search (keeps_rules, saves, insert_outbox-Keeps writes) depth 20

  book-Keeps :
      (t : WagerTransaction) (w w' : Wallet) (d : LedgerDirection)
      → Keeps H (book ids m now save t w w' d)
  unfolding book
  book-Keeps t w w' d =
      search
        (
          keeps_rules,
          saves,
          record_double_entry-Keeps,
          insert_outbox-Keeps writes,
          writes.balance,
          writes.ledger,
        )
        depth 30

  move_funds-Keeps :
      (t : WagerTransaction) (w : Wallet) (d : LedgerDirection) (r : Result Wallet)
      → Keeps H (move_funds ids m now save t w d r)
  move_funds-Keeps t w d (ok w') = book-Keeps t w w' d
  move_funds-Keeps t w d (err e) = search (keeps_rules, reject-Keeps)

  settle_kind-Keeps :
      (t : WagerTransaction) (w : Wallet) (d : Decision) (k : DecisionKind)
      → Keeps H (settle_kind ids m now save t w d k)
  settle_kind-Keeps t w d DecisionKind.pending_reference = park-Keeps t w
  settle_kind-Keeps t w d DecisionKind.reject = reject-Keeps t w d.failure
  settle_kind-Keeps t w d DecisionKind.process = search (keeps_rules, move_funds-Keeps, note-Keeps)

  pub settle-Keeps :
      (t : WagerTransaction) (w : Wallet) (d : Decision) → Keeps H (settle ids m now save t w d)
  unfolding settle
  settle-Keeps t w d = settle_kind-Keeps t w d d.kind
