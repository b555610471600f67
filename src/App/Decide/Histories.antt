-- ===== src/App/Decide/Histories.antt =====
-- internal/app/process_wager.go: `decide` only reads.
use jungle.Base.{Bool, Option, none, some, str_eq}
use jungle.Values.{Uuid}
use jungle.Result.{ok}
use jungle.Wallet.{Wallet}
use jungle.Wallet.Entry.{LedgerDirection}
use jungle.Wagertx.{WagerTransaction}
use jungle.Wagertx.Constants.{Kind, Status}
use jungle.Store.Tables.{TransactionRow}
use jungle.Store.Action.Histories.{History, Keeps, Keeps-read, Keeps-if, Keeps-bind, Keeps-lift}
use jungle.Store.Transactions.{scan_one, has_identity, has_successful_reversal}
use jungle.Store.Effects.{scan_one-db, has_successful_reversal-db}
use jungle.Store.Statements.{keeps_rules}
use jungle.App.Decide.{
  attached, optional, if_any, find_reference, attach_optional_reference, decide_direction,
  decide_found, decide_reference, decide_reversal, decide_kind, decide,
}
use jungle.App.ProcessWager.Reads.{optional-db, if_any-db}

module _ {H : History} where
  pub scan_one-Keeps : (p : TransactionRow → Bool) → Keeps H (scan_one p)
  scan_one-Keeps p = Keeps-read (scan_one p) (scan_one-db p)

  pub optional-Keeps : (p : TransactionRow → Bool) → Keeps H (optional (scan_one p))
  optional-Keeps p =
      Keeps-read (optional (scan_one p)) (λ s. optional-db (scan_one p) s (scan_one-db p s))

  if_any-Keeps : (p : TransactionRow → Bool) → Keeps H (if_any (scan_one p))
  if_any-Keeps p =
      Keeps-read (if_any (scan_one p)) (λ s. if_any-db (scan_one p) s (scan_one-db p s))

  attach_optional_reference-Keeps : (t : WagerTransaction) → Keeps H (attach_optional_reference t)
  unfolding attach_optional_reference
  attach_optional_reference-Keeps t =
      Keeps-if (str_eq t.reference_external_tx_id "") _ _ (Keeps-lift (ok t)) (
        Keeps-bind (if_any (find_reference t)) _
          (if_any-Keeps (has_identity t.provider_id t.reference_external_tx_id))
          (λ ref. Keeps-lift (ok (attached t ref))))

  reversed-Keeps : (id : Uuid) → Keeps H (has_successful_reversal id)
  reversed-Keeps id = Keeps-read (has_successful_reversal id) (has_successful_reversal-db id)

  decide_direction-Keeps :
      (t ref : WagerTransaction) (o : Option LedgerDirection) → Keeps H (decide_direction t ref o)
  decide_direction-Keeps t ref none = search (keeps_rules)
  decide_direction-Keeps t ref (some d) = search (keeps_rules, reversed-Keeps) depth 10

  decide_found-Keeps : (t ref : WagerTransaction) (st : Status) → Keeps H (decide_found t ref st)
  decide_found-Keeps t ref Status.pending = search (keeps_rules)
  decide_found-Keeps t ref Status.pending_reference = search (keeps_rules)
  decide_found-Keeps t ref Status.rejected = search (keeps_rules)
  decide_found-Keeps t ref Status.failed = search (keeps_rules)
  decide_found-Keeps t ref Status.processed = search (keeps_rules, decide_direction-Keeps)
  decide_found-Keeps t ref (Status.other s) = search (keeps_rules, decide_direction-Keeps)

  decide_reference-Keeps :
      (t : WagerTransaction) (o : Option WagerTransaction) → Keeps H (decide_reference t o)
  decide_reference-Keeps t none = search (keeps_rules)
  decide_reference-Keeps t (some ref) = decide_found-Keeps t ref ref.status

  pub decide_reversal-Keeps : (t : WagerTransaction) → Keeps H (decide_reversal t)
  unfolding decide_reversal
  decide_reversal-Keeps t = search (
    keeps_rules,
    optional-Keeps (has_identity t.provider_id t.reference_external_tx_id),
    decide_reference-Keeps,
  )

  decide_kind-Keeps : (t : WagerTransaction) (k : Kind) → Keeps H (decide_kind t k)
  decide_kind-Keeps t Kind.bet = search (keeps_rules)
  decide_kind-Keeps t Kind.win = search (keeps_rules, attach_optional_reference-Keeps)
  decide_kind-Keeps t Kind.loss = search (keeps_rules)
  decide_kind-Keeps t Kind.refund = decide_reversal-Keeps t
  decide_kind-Keeps t Kind.rollback = decide_reversal-Keeps t
  decide_kind-Keeps t Kind.opening = search (keeps_rules)
  decide_kind-Keeps t (Kind.other s) = search (keeps_rules)

  pub decide-Keeps : (t : WagerTransaction) (w : Wallet) → Keeps H (decide t w)
  unfolding decide
  decide-Keeps t w = search (keeps_rules, decide_kind-Keeps)
