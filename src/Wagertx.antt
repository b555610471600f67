-- ===== src/Wagertx.antt =====
-- internal/domain/wagertx/transaction.go: a wager transaction and its life cycle. A method with a
-- pointer receiver writes its fields only on the way to `return nil`, so it is a function that
-- returns the new transaction or an error.
pub mod Constants
pub mod Lifecycle
pub mod Invariant
use jungle.Base.{ℕ, String, ◌≡◌, Bool, true, false, not, ◌&&◌, ◌||◌, str_eq, if◌then◌else◌}
use jungle.Values.{Uuid, Time, nil_id, is_nil, is_zero_time}
use jungle.Int.{pos}
use jungle.Money.{Money, is_positive, is_zero, zero_of}
use jungle.Result.{
  Result, ok, err, ◌>>=◌, ◌>>◌, fail_if, invalid_transaction, invalid_kind, invalid_status,
  invalid_transition, terminal_state, opening_not_external, reference_required,
  reference_not_applicable, invalid_amount_for_kind,
}
use Constants.{
  Kind, Status, FailureCode, is_opening, is_valid_external, kind_is_valid, requires_reference,
  allows_reference, allowed, status_is_valid, status_is_terminal, is_no_code, pending,
  pending_reference, processed, rejected, failed, opening,
}

-- `WagerTransaction`
pub record WagerTransaction : Type 0 where
  pub id : Uuid
  pub wallet_id : Uuid
  pub player_id : Uuid
  pub kind : Kind
  pub money : Money
  pub status : Status
  pub provider_id : String
  pub external_transaction_id : String
  pub idempotency_key : String
  pub payload_hash : String
  pub round_id : String
  pub game_id : String
  pub reference_external_tx_id : String
  pub reference_transaction_id : Uuid
  pub failure_code : FailureCode
  pub resulting_balance : Money
  pub has_resulting_balance : Bool
  pub created_at : Time
  pub updated_at : Time

-- The zero value `money.Money{}`.
abbrev pub no_money : Money
no_money = zero_of ""

-- `NewOpeningParams`
pub record NewOpeningParams : Type 0 where
  pub id : Uuid
  pub wallet_id : Uuid
  pub player_id : Uuid
  pub money : Money
  pub now : Time

-- The struct that `NewOpening` returns.
abbrev pub opening_of : NewOpeningParams → WagerTransaction
opening_of p = record {
  id = p.id;
  wallet_id = p.wallet_id;
  player_id = p.player_id;
  kind = opening;
  money = p.money;
  status = processed;
  provider_id = "";
  external_transaction_id = "";
  idempotency_key = "";
  payload_hash = "";
  round_id = "";
  game_id = "";
  reference_external_tx_id = "";
  reference_transaction_id = nil_id;
  failure_code = FailureCode.none;
  resulting_balance = p.money;
  has_resulting_balance = true;
  created_at = p.now;
  updated_at = p.now;
}

-- `NewOpening`
unfoldable pub new_opening : NewOpeningParams → Result WagerTransaction
new_opening p = do
  fail_if (is_nil p.id || is_nil p.wallet_id || is_nil p.player_id) invalid_transaction
  fail_if (not (is_positive p.money)) invalid_amount_for_kind
  fail_if (is_zero_time p.now) invalid_transaction
  ok (opening_of p)

-- `NewExternalParams`
pub record NewExternalParams : Type 0 where
  pub id : Uuid
  pub provider_id : String
  pub external_transaction_id : String
  pub idempotency_key : String
  pub payload_hash : String
  pub wallet_id : Uuid
  pub player_id : Uuid
  pub round_id : String
  pub game_id : String
  pub kind : Kind
  pub money : Money
  pub reference_external_transaction_id : String
  pub now : Time

-- The `switch p.Kind` on the amount: whether it is refused.
unfoldable pub bad_amount : Kind → Money → Bool
bad_amount Kind.bet m = not (is_positive m)
bad_amount Kind.win m = not (is_positive m)
bad_amount Kind.refund m = not (is_positive m)
bad_amount Kind.rollback m = not (is_positive m)
bad_amount Kind.loss m = not (is_zero m)
bad_amount _ m = false

-- The struct that `NewExternal` returns.
abbrev pub external_of : NewExternalParams → WagerTransaction
external_of p = record {
  id = p.id;
  wallet_id = p.wallet_id;
  player_id = p.player_id;
  kind = p.kind;
  money = p.money;
  status = pending;
  provider_id = p.provider_id;
  external_transaction_id = p.external_transaction_id;
  idempotency_key = p.idempotency_key;
  payload_hash = p.payload_hash;
  round_id = p.round_id;
  game_id = p.game_id;
  reference_external_tx_id = p.reference_external_transaction_id;
  reference_transaction_id = nil_id;
  failure_code = FailureCode.none;
  resulting_balance = no_money;
  has_resulting_balance = false;
  created_at = p.now;
  updated_at = p.now;
}

-- The six texts of which none may be missing.
abbrev pub lacks_metadata : NewExternalParams → Bool
lacks_metadata p =
    str_eq p.provider_id ""
    || str_eq p.external_transaction_id ""
    || str_eq p.idempotency_key ""
    || str_eq p.payload_hash ""
    || str_eq p.round_id ""
    || str_eq p.game_id ""

-- `NewExternal`
unfoldable pub new_external : NewExternalParams → Result WagerTransaction
new_external p = do
  fail_if (is_opening p.kind) opening_not_external
  fail_if (not (is_valid_external p.kind)) invalid_kind
  fail_if (is_nil p.id || is_nil p.wallet_id || is_nil p.player_id) invalid_transaction
  fail_if (lacks_metadata p) invalid_transaction
  fail_if (is_zero_time p.now) invalid_transaction
  fail_if (bad_amount p.kind p.money) invalid_amount_for_kind
  fail_if (requires_reference p.kind && str_eq p.reference_external_transaction_id "")
      reference_required
  fail_if (not (allows_reference p.kind) && not (str_eq p.reference_external_transaction_id ""))
      reference_not_applicable
  ok (external_of p)

-- `RehydrateParams`
pub record RehydrateParams : Type 0 where
  pub id : Uuid
  pub wallet_id : Uuid
  pub player_id : Uuid
  pub kind : Kind
  pub money : Money
  pub status : Status
  pub provider_id : String
  pub external_transaction_id : String
  pub idempotency_key : String
  pub payload_hash : String
  pub round_id : String
  pub game_id : String
  pub reference_external_transaction_id : String
  pub reference_transaction_id : Uuid
  pub failure_code : FailureCode
  pub resulting_balance : Money
  pub created_at : Time
  pub updated_at : Time

-- `p.Status == Processed`
abbrev pub is_processed : Status → Bool
is_processed processed = true
is_processed _ = false

-- `Rehydrate`
unfoldable pub rehydrate : RehydrateParams → Result WagerTransaction
unfolding kind_is_valid status_is_valid
rehydrate p = do
  fail_if (is_nil p.id || is_nil p.wallet_id || is_nil p.player_id) invalid_transaction
  fail_if (not (kind_is_valid p.kind)) invalid_kind
  fail_if (not (status_is_valid p.status)) invalid_status
  ok (record {
    id = p.id;
    wallet_id = p.wallet_id;
    player_id = p.player_id;
    kind = p.kind;
    money = p.money;
    status = p.status;
    provider_id = p.provider_id;
    external_transaction_id = p.external_transaction_id;
    idempotency_key = p.idempotency_key;
    payload_hash = p.payload_hash;
    round_id = p.round_id;
    game_id = p.game_id;
    reference_external_tx_id = p.reference_external_transaction_id;
    reference_transaction_id = p.reference_transaction_id;
    failure_code = p.failure_code;
    resulting_balance = p.resulting_balance;
    has_resulting_balance = is_processed p.status;
    created_at = p.created_at;
    updated_at = p.updated_at;
  })

-- `IsTerminal`
abbrev pub is_terminal : WagerTransaction → Bool
is_terminal t = status_is_terminal t.status

-- `transitionTo`
unfoldable pub transition_to : Status → Time → WagerTransaction → Result WagerTransaction
transition_to next now t = do
  fail_if (not (allowed t.status next)) invalid_transition
  ok (record t { status = next; updated_at = now })

-- `MarkProcessed`
unfoldable pub mark_processed : Money → Time → WagerTransaction → Result WagerTransaction
unfolding transition_to
mark_processed balance now t = do
  t' ← transition_to processed now t
  ok (record t' { resulting_balance = balance; has_resulting_balance = true })

-- `MarkRejected`
unfoldable pub mark_rejected : FailureCode → Time → WagerTransaction → Result WagerTransaction
unfolding transition_to
mark_rejected code now t = do
  fail_if (is_no_code code) invalid_transaction
  t' ← transition_to rejected now t
  ok (record t' { failure_code = code })

-- `MarkFailed`
unfoldable pub mark_failed : FailureCode → Time → WagerTransaction → Result WagerTransaction
unfolding transition_to
mark_failed code now t = do
  fail_if (is_no_code code) invalid_transaction
  t' ← transition_to failed now t
  ok (record t' { failure_code = code })

-- `MarkPendingReference`
unfoldable pub mark_pending_reference : Time → WagerTransaction → Result WagerTransaction
unfolding transition_to
mark_pending_reference now t = do
  fail_if (not (requires_reference t.kind)) invalid_transition
  transition_to pending_reference now t

-- `ResolveReference`
unfoldable pub resolve_reference : Uuid → WagerTransaction → Result WagerTransaction
resolve_reference id t = do
  fail_if (is_terminal t) terminal_state
  fail_if (is_nil id) invalid_transaction
  ok (record t { reference_transaction_id = id })
