-- ===== src/Queue.antt =====
-- internal/queue/consumer.go: a message of the queue is handled by the use case of a wager. The
-- queue's client, tracing and metrics are left out.
pub mod Handled
pub mod Batch
pub mod Loop
pub mod Histories
use jungle.Base.{
  String, Bool, true, false, not, Option, none, some, List, [], ◌∷◌, str_eq, if◌then◌else◌,
}
use jungle.Values.{Uuid, Time}
use jungle.Money.{Money, new_currency, parse_non_negative, decimal_string}
use jungle.Money.Decimal.{Text}
use jungle.Wagertx.Constants.{is_valid_external}
use jungle.Result
use jungle.Result.{Error, Result, ok, err, ◌>>=◌, ◌>>◌, fail_if, permanent}
use jungle.Store.Action.{World}
use jungle.App.Identity.{PayloadFields, payload_hash}
use jungle.App.Settle.{ProcessWagerResult, NewIds}
use jungle.App.ProcessWager.{ProcessWagerCommand, execute}
use jungle.Http.Dto.{Texts, MoneyDto, kind_of, kind_text}

-- `messageData`; its `Money` has the fields of `moneyDTO`.
pub record MessageData : Type 0 where
  pub provider_id : String
  pub external_transaction_id : String
  pub idempotency_key : String
  pub player_id : String
  pub wallet_id : String
  pub round_id : String
  pub game_id : String
  pub kind : String
  pub money : MoneyDto
  pub reference_external_transaction_id : String
  pub correlation_id : String

-- `messageEnvelope`, of which the type and the time are not used
pub record MessageEnvelope : Type 0 where
  pub message_id : String
  pub data_of : MessageData

-- What becomes of a message: it is deleted, stays in the queue since its deletion has failed, is left
-- for the dead letter queue, or is left to be delivered again.
pub data Fate : Type 0 where
  deleted undeleted dead_lettered redelivered : Fate

-- `delete`, which only logs that the queue has not accepted it.
abbrev pub delete : Bool → Fate
delete true = deleted
delete false = undeleted

-- `errors.Is(err, errPermanent)`
abbrev pub is_permanent : Error → Bool
is_permanent permanent = true
is_permanent _ = false

module _ {A : Type 0} where
  -- `fmt.Errorf("%w: %v", errPermanent, err)`
  abbrev pub or_permanent : Result A → Result A
  or_permanent (ok a) = ok a
  or_permanent (err e) = err permanent

module _ (texts : Texts) (digest : List (String × Text) → String) (consumer : String) (ids : NewIds)
    (now : Time) (fresh : Uuid) where
  abbrev pub uuid_of : String → Result Uuid
  uuid_of raw = elim (texts.parse_uuid raw) [ none ↦ err permanent | some id ↦ ok id ]

  -- The message's own correlation id if it is a UUID, or a new one.
  abbrev pub correlation_of : String → Uuid
  correlation_of raw =
      if str_eq raw "" then fresh else elim (texts.parse_uuid raw) [ none ↦ fresh | some id ↦ id ]

  -- `buildCommand`
  unfoldable pub build_command : MessageEnvelope → Result ProcessWagerCommand
  build_command envelope = do
    fail_if (str_eq envelope.data_of.idempotency_key "") permanent
    player ← uuid_of envelope.data_of.player_id
    wallet ← uuid_of envelope.data_of.wallet_id
    fail_if (not (is_valid_external (kind_of envelope.data_of.kind))) permanent
    currency ← or_permanent (new_currency envelope.data_of.money.currency)
    amount ← or_permanent (parse_non_negative envelope.data_of.money.amount currency)
    ok (record {
      provider_id = envelope.data_of.provider_id;
      external_transaction_id = envelope.data_of.external_transaction_id;
      idempotency_key = envelope.data_of.idempotency_key;
      payload_hash = payload_hash digest (record {
        provider_id = envelope.data_of.provider_id;
        external_transaction_id = envelope.data_of.external_transaction_id;
        player_id = envelope.data_of.player_id;
        wallet_id = envelope.data_of.wallet_id;
        round_id = envelope.data_of.round_id;
        game_id = envelope.data_of.game_id;
        kind = kind_text (kind_of envelope.data_of.kind);
        money_amount = decimal_string amount;
        money_currency = amount.currency;
        reference_external_transaction_id = envelope.data_of.reference_external_transaction_id;
      });
      player_id = player;
      wallet_id = wallet;
      round_id = envelope.data_of.round_id;
      game_id = envelope.data_of.game_id;
      kind = kind_of envelope.data_of.kind;
      money = amount;
      reference_external_transaction_id = envelope.data_of.reference_external_transaction_id;
      correlation_id = correlation_of envelope.data_of.correlation_id;
      consumer_name = consumer;
      message_id = envelope.message_id;
    })

  -- The `switch` on the error of `Execute`.
  abbrev pub classify : Error → Error
  classify Result.idempotency_conflict = permanent
  classify Result.operation_identity_conflict = permanent
  classify Result.wallet_mismatch = permanent
  classify Result.not_found = permanent
  classify e = e

  abbrev pub classified : Result ProcessWagerResult × World → Result (Unit {0}) × World
  classified (ok r, s) = (ok tt, s)
  classified (err e, s) = (err (classify e), s)

  abbrev pub process_built : Result ProcessWagerCommand → World → Result (Unit {0}) × World
  process_built (err e) s = (err e, s)
  process_built (ok cmd) s = classified (execute ids now cmd s)

  -- `process`, on a body that JSON may not be able to read
  unfoldable pub process : Option MessageEnvelope → World → Result (Unit {0}) × World
  process none s = (err permanent, s)
  process (some envelope) s =
      if str_eq envelope.message_id ""
      then (err permanent, s)
      else process_built (build_command envelope) s

  -- The queue accepts a deletion, or does not.
  module _ (deletes : Bool) where
    abbrev pub fate_of : Result (Unit {0}) → Fate
    fate_of (ok _) = delete deletes
    fate_of (err e) = if is_permanent e then dead_lettered else redelivered

    -- `handle`
    unfoldable pub handle : Option MessageEnvelope → World → Fate × World
    handle body s = let (r, s') = process body s in (fate_of r, s')
