-- ===== src/Http/Handlers.antt =====
-- internal/httpapi/handlers.go: the handlers. A request is what the web framework gives of it: the
-- identity, if the middleware has set one, and the body, if it could be read. Logs and metrics are
-- left out.
use jungle.Base.{ℕ, String, not, Option, none, some, List, str_eq, if◌then◌else◌, map}
use jungle.Values.{Uuid, Time}
use jungle.Int.{ℤ, pos, leb_ℤ}
use jungle.Money.{decimal_string}
use jungle.Money.Decimal.{Text}
use jungle.Wallet.Entry.{WalletLedgerEntry}
use jungle.Wagertx.Constants.{Status}
use jungle.Result.{Result, ok, err, ◌>>=◌, invalid_field}
use jungle.Store.Action.{Action, World}
use jungle.Store.Ledger.{Codec}
use jungle.App.Identity.{Identity, payload_hash, may_act_as_provider, may_use_wallet_operations}
use jungle.App.Settle.{ProcessWagerResult, NewIds}
use jungle.App.ProcessWager.{ProcessWagerCommand, execute}
use jungle.App.OpenWallet
use jungle.App.OpenWallet.{OpenWalletCommand, OpeningIds}
use jungle.App.Queries
use jungle.Http.Dto.{
  Texts, kind_text, to_money, parse_kind, OpenWalletRequest, SubmitTransactionRequest, wallet_out,
  entry_out, submit_out, transaction_out, reconciliation_out,
}
use jungle.Http.Errors.{
  Body, Response, bad_request, unauthenticated, forbidden, respond_error, wallet_body, ledger_body,
  reconciliation_body, submit_body, transaction_body,
}

-- A handler with its answer, over the database.
abbrev pub Handler : Type 0
Handler = World → Response × World

abbrev pub answer : Response → Handler
answer r s = (r, s)

module _ {A : Type 0} where
  abbrev pub reply : (A → Response) → Result A × World → Response × World
  reply f (ok a, s) = (f a, s)
  reply f (err e, s) = (respond_error e, s)

  -- A use case is run: its result is answered, or its error.
  abbrev pub respond : (A → Response) → Action A → Handler
  respond f m s = reply f (m s)

abbrev pub status_ok : Body → Response
status_ok b = record { status = 200; body = b }

module _ (texts : Texts) where
  -- `correlationID`, for the value of the request's header and a new UUID.
  abbrev pub correlation_id : String → Uuid → Uuid
  correlation_id raw fresh =
      if str_eq raw "" then fresh else elim (texts.parse_uuid raw) [ none ↦ fresh | some id ↦ id ]

  module _ (ids : OpeningIds) (now : Time) (correlation : Uuid) where
    abbrev pub open_parsed : Option Uuid → OpenWalletRequest → Handler
    open_parsed none req = answer bad_request
    open_parsed (some player) req = elim (to_money req.initial_balance) [
      | err e ↦ answer (respond_error e)
      | ok initial ↦
          respond (λ w. record { status = 201; body = wallet_body (wallet_out texts w) })
            (OpenWallet.open_wallet ids now (record {
              player_id = player;
              initial_balance = initial;
              correlation_id = correlation;
            }))
    ]

    abbrev pub open_bound : Option OpenWalletRequest → Handler
    open_bound none = answer bad_request
    open_bound (some req) = open_parsed (texts.parse_uuid req.player_id) req

    -- `Handlers.OpenWallet`
    unfoldable pub open_wallet : Option Identity → Option OpenWalletRequest → Handler
    open_wallet none req = answer unauthenticated
    open_wallet (some i) req =
        if not (may_use_wallet_operations i) then answer forbidden else open_bound req

  abbrev pub with_uuid : String → (Uuid → Handler) → Handler
  with_uuid raw f = elim (texts.parse_uuid raw) [ none ↦ answer bad_request | some id ↦ f id ]

  -- `Handlers.GetWallet`
  unfoldable pub get_wallet : Option Identity → String → Handler
  get_wallet none raw = answer unauthenticated
  get_wallet (some i) raw =
      with_uuid raw
        λ id. respond (λ w. status_ok (wallet_body (wallet_out texts w))) (Queries.get_wallet i id)

  abbrev pub page_out : List WalletLedgerEntry × String → Response
  page_out (es, next) = status_ok (ledger_body (map (entry_out texts) es) next)

  -- The limit of a request; `atoi` is `strconv.Atoi`.
  abbrev pub limit_of : (String → Option ℤ) → String → Option ℤ
  limit_of atoi raw =
      if str_eq raw ""
      then some (pos 50)
      else elim (atoi raw) [ none ↦ none | some n ↦ if leb_ℤ n (pos 0) then none else some n ]

  abbrev pub page_of : Codec → Identity → String → Uuid → Option ℤ → Handler
  page_of codec i cursor id none = answer bad_request
  page_of codec i cursor id (some n) = respond page_out (Queries.get_ledger codec i id cursor n)

  -- `Handlers.GetLedger`
  unfoldable pub get_ledger :
      Codec → (String → Option ℤ) → Option Identity → String → String → String → Handler
  get_ledger codec atoi none wallet limit cursor = answer unauthenticated
  get_ledger codec atoi (some i) wallet limit cursor =
      with_uuid wallet λ id. page_of codec i cursor id (limit_of atoi limit)

  -- `Handlers.Reconcile`
  unfoldable pub reconcile : Option Identity → String → Handler
  reconcile none raw = answer unauthenticated
  reconcile (some i) raw = with_uuid raw λ id.
      respond (λ r. status_ok (reconciliation_body (reconciliation_out texts r)))
        (Queries.reconcile i id)

  -- `Handlers.GetTransaction`
  unfoldable pub get_transaction : Option Identity → String → Handler
  get_transaction none raw = answer unauthenticated
  get_transaction (some i) raw = with_uuid raw λ id.
      respond (λ t. status_ok (transaction_body (transaction_out texts t)))
        (Queries.get_transaction i id)

  -- `Handlers.GetProviderTransaction`
  unfoldable pub get_provider_transaction : Option Identity → String → String → Handler
  get_provider_transaction none provider external = answer unauthenticated
  get_provider_transaction (some i) provider external =
      respond (λ t. status_ok (transaction_body (transaction_out texts t)))
        (Queries.get_provider_transaction i provider external)

  -- `errInvalidField` where a text is no UUID
  abbrev pub uuid_field : String → Result Uuid
  uuid_field raw = elim (texts.parse_uuid raw) [ none ↦ err invalid_field | some id ↦ ok id ]

  module _ (digest : List (String × Text) → String) where
    -- `buildProcessCommand`; such a command comes from no message.
    unfoldable pub build_process_command :
        SubmitTransactionRequest → String → Uuid → Result ProcessWagerCommand
    build_process_command req key correlation = do
      player ← uuid_field req.player_id
      wallet ← uuid_field req.wallet_id
      kind ← parse_kind req.kind
      amount ← to_money req.money
      ok (record {
        provider_id = req.provider_id;
        external_transaction_id = req.external_transaction_id;
        idempotency_key = key;
        payload_hash = payload_hash digest (record {
          provider_id = req.provider_id;
          external_transaction_id = req.external_transaction_id;
          player_id = req.player_id;
          wallet_id = req.wallet_id;
          round_id = req.round_id;
          game_id = req.game_id;
          kind = kind_text kind;
          money_amount = decimal_string amount;
          money_currency = amount.currency;
          reference_external_transaction_id = req.reference_external_transaction_id;
        });
        player_id = player;
        wallet_id = wallet;
        round_id = req.round_id;
        game_id = req.game_id;
        kind = kind;
        money = amount;
        reference_external_transaction_id = req.reference_external_transaction_id;
        correlation_id = correlation;
        consumer_name = "";
        message_id = "";
      })

    abbrev pub submit_status : Status → ℕ
    submit_status Status.processed = 200
    submit_status Status.rejected = 422
    submit_status Status.pending_reference = 202
    submit_status Status.pending = 202
    submit_status _ = 200

    -- `respondSubmitResult`
    unfoldable pub respond_submit_result : ProcessWagerResult → Response
    respond_submit_result r = record {
      status = submit_status r.transaction.status;
      body = submit_body (submit_out texts r.transaction r.balance r.idempotent_replay);
    }

    module _ (ids : NewIds) (now : Time) (key : String) (correlation : Uuid) where
      abbrev pub submit_built : Result ProcessWagerCommand → Handler
      submit_built (err e) = answer (respond_error e)
      submit_built (ok cmd) = respond respond_submit_result (execute ids now cmd)

      abbrev pub submit_bound : Identity → Option SubmitTransactionRequest → Handler
      submit_bound i none = answer bad_request
      submit_bound i (some req) =
          if not (may_act_as_provider i req.provider_id)
          then answer forbidden
          else submit_built (build_process_command req key correlation)

      -- `Handlers.SubmitTransaction`
      unfoldable pub submit_transaction :
          Option Identity → Option SubmitTransactionRequest → Handler
      submit_transaction none req = answer unauthenticated
      submit_transaction (some i) req =
          if str_eq key "" then answer bad_request else submit_bound i req
