-- ===== src/App/Decide.antt =====
-- internal/app/process_wager.go: what becomes of a new transaction, `decide` and its helpers.
pub mod Histories
pub mod Unreversed
use jungle.Base.{Bool, true, false, not, ◌||◌, Option, none, some, ◌==◌, str_eq, if◌then◌else◌}
use jungle.Money
use jungle.Money.{Money}
use jungle.Wallet.{Wallet}
use jungle.Wallet.Entry.{LedgerDirection, debit, credit}
use jungle.Wagertx.{WagerTransaction, resolve_reference}
use jungle.Wagertx.Constants.{Kind, Status, FailureCode}
use jungle.Result.{Error, Result, ok, err, not_found, invalid_kind}
use jungle.Store.Action.{Action, World, pure, raise, lift, ◌>>=◌}
use jungle.Store.Transactions.{get_by_provider_external_id, has_successful_reversal}

-- `decisionKind`
pub data DecisionKind : Type 0 where
  process reject pending_reference : DecisionKind

-- `decision`
pub record Decision : Type 0 where
  pub kind : DecisionKind
  pub moves_funds : Bool
  pub direction : LedgerDirection
  pub failure : FailureCode

abbrev pub no_direction : LedgerDirection
no_direction = LedgerDirection.other ""

abbrev pub move : LedgerDirection → Decision
move d = record { kind = process; moves_funds = true; direction = d; failure = FailureCode.none }

abbrev pub record_only : Decision
record_only = record {
  kind = process;
  moves_funds = false;
  direction = no_direction;
  failure = FailureCode.none;
}

abbrev pub refuse : FailureCode → Decision
refuse code = record {
  kind = reject;
  moves_funds = false;
  direction = no_direction;
  failure = code;
}

abbrev pub wait : Decision
wait = record {
  kind = pending_reference;
  moves_funds = false;
  direction = no_direction;
  failure = FailureCode.none;
}

-- `errors.Is(err, ErrNotFound)`
abbrev pub is_not_found : Error → Bool
is_not_found not_found = true
is_not_found _ = false

module _ {A : Type 0} where
  abbrev pub or_none : Result A × World → Result (Option A) × World
  or_none (ok a, s) = (ok (some a), s)
  or_none (err e, s) = if is_not_found e then (ok none, s) else (err e, s)

  -- A lookup after which `ErrNotFound` is a case of its own, and any other error is returned.
  abbrev pub optional : Action A → Action (Option A)
  optional m s = or_none (m s)

  abbrev pub ignored : Result A × World → Result (Option A) × World
  ignored (ok a, s) = (ok (some a), s)
  ignored (err e, s) = (ok none, s)

  -- A lookup of which every error is dropped.
  abbrev pub if_any : Action A → Action (Option A)
  if_any m s = ignored (m s)

abbrev pub kept : WagerTransaction → Result WagerTransaction → WagerTransaction
kept t (ok t') = t'
kept t (err e) = t

abbrev pub attached : WagerTransaction → Option WagerTransaction → WagerTransaction
attached t none = t
attached t (some ref) = kept t (resolve_reference ref.id t)

abbrev pub find_reference : WagerTransaction → Action WagerTransaction
find_reference t = get_by_provider_external_id t.provider_id t.reference_external_tx_id

-- `attachOptionalReference`, which returns the transaction that it changes.
unfoldable pub attach_optional_reference : WagerTransaction → Action WagerTransaction
attach_optional_reference t =
    if str_eq t.reference_external_tx_id ""
    then pure t
    else (do ref ← if_any (find_reference t); pure (attached t ref))

-- `reversalDirection`
unfoldable pub reversal_direction : Kind → Kind → Option LedgerDirection
reversal_direction Kind.refund Kind.bet = some credit
reversal_direction Kind.refund _ = none
reversal_direction _ Kind.bet = some credit
reversal_direction _ Kind.win = some debit
reversal_direction _ Kind.refund = some debit
reversal_direction _ _ = none

-- Whether the reference is another player's, wallet's, round's or currency's, or another amount.
abbrev pub mismatches : WagerTransaction → WagerTransaction → Bool
mismatches ref t =
    not (ref.player_id == t.player_id)
    || not (ref.wallet_id == t.wallet_id)
    || not (str_eq ref.round_id t.round_id)
    || not (str_eq ref.money.currency t.money.currency)
    || not (Money.equal ref.money t.money)

-- The end of `decideReversal`, for a reference that was processed and fits.
abbrev pub decide_direction :
    WagerTransaction
    → WagerTransaction
    → Option LedgerDirection
    → Action (WagerTransaction × Decision)
decide_direction t ref none = pure (t, refuse FailureCode.reference_mismatch)
decide_direction t ref (some direction) = do
  reversed ← has_successful_reversal ref.id
  if reversed
      then pure (t, refuse FailureCode.duplicate_reversal)
      else (do t' ← lift (resolve_reference ref.id t); pure (t', move direction))

-- The `switch ref.Status()`; behind it the status is PROCESSED, or no known one.
abbrev pub decide_found :
    WagerTransaction → WagerTransaction → Status → Action (WagerTransaction × Decision)
decide_found t ref Status.pending = pure (t, wait)
decide_found t ref Status.pending_reference = pure (t, wait)
decide_found t ref Status.rejected = pure (t, refuse FailureCode.reference_not_successful)
decide_found t ref Status.failed = pure (t, refuse FailureCode.reference_not_successful)
decide_found t ref _ =
    if mismatches ref t
    then pure (t, refuse FailureCode.reference_mismatch)
    else decide_direction t ref (reversal_direction t.kind ref.kind)

abbrev pub decide_reference :
    WagerTransaction → Option WagerTransaction → Action (WagerTransaction × Decision)
decide_reference t none = pure (t, wait)
decide_reference t (some ref) = decide_found t ref ref.status

-- `decideReversal`, which returns the transaction that it changes too.
unfoldable pub decide_reversal : WagerTransaction → Action (WagerTransaction × Decision)
decide_reversal t = do ref ← optional (find_reference t); decide_reference t ref

-- The `switch tx.Kind()` of `decide`.
abbrev pub decide_kind : WagerTransaction → Kind → Action (WagerTransaction × Decision)
decide_kind t Kind.bet = pure (t, move debit)
decide_kind t Kind.win = do t' ← attach_optional_reference t; pure (t', move credit)
decide_kind t Kind.loss = pure (t, record_only)
decide_kind t Kind.refund = decide_reversal t
decide_kind t Kind.rollback = decide_reversal t
decide_kind t _ = raise invalid_kind

-- `decide`
unfoldable pub decide : WagerTransaction → Wallet → Action (WagerTransaction × Decision)
decide t w =
    if not (str_eq t.money.currency w.currency)
    then pure (t, refuse FailureCode.currency_mismatch)
    else decide_kind t t.kind
