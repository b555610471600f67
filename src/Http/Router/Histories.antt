-- ===== src/Http/Router/Histories.antt =====
-- internal/httpapi: whatever is requested, the tables go on as the use cases let them.
use jungle.Base.{◌≡◌, refl, Option, none, some, String, not, str_eq, List, inl, inr, Option-cases}
use jungle.Values.{Uuid, Time}
use jungle.Int.{ℤ}
use jungle.Result.{Result, ok, err}
use jungle.Money.{Money}
use jungle.Money.Decimal.{Text}
use jungle.Store.Action.{World, Action}
use jungle.Store.Action.Histories.{History, Keeps, Keeps-if}
use jungle.Store.Ledger.{Codec}
use jungle.App.Identity.{Identity, may_use_wallet_operations, may_act_as_provider}
use jungle.App.Settle.{NewIds}
use jungle.App.OpenWallet.{OpeningIds}
use jungle.App.ProcessWager.{ProcessWagerCommand}
use jungle.App.UseCases.{UseCases}
use jungle.App.Queries.Histories.{
  get_wallet-Keeps as read_wallet-Keeps, get_ledger-Keeps as read_ledger-Keeps,
  get_transaction-Keeps as read_transaction-Keeps,
  get_provider_transaction-Keeps as read_operation-Keeps, reconcile-Keeps as read_sums-Keeps,
}
use jungle.Http.Dto.{Texts, OpenWalletRequest, SubmitTransactionRequest, to_money}
use jungle.Http.Errors.{Response, respond_error, bad_request, forbidden, unauthenticated}
use jungle.Http.Handlers
use jungle.Http.Handlers.{
  Handler, answer, reply, respond, with_uuid, open_parsed, open_bound, limit_of, page_of,
  submit_built, submit_bound, build_process_command,
}
use jungle.Http.Safety.{to_money-IsMoney, build_process_command-IsMoney}
use jungle.Http.Auth.{identity_of}
use jungle.Http.Router.{Packages, Request, Call, handler_of, authenticate, chain, serve, proceed}

module _ {H : History} where
  pub answer-Keeps : (r : Response) → Keeps H (answer r)
  answer-Keeps r = record { at = λ s. H.stay s.db }

  respond-Keeps : {A : Type 0} (f : A → Response) (m : Action A) → Keeps H m → Keeps H (respond f m)
  respond-Keeps f m kept = record { at = λ s. rw (reply-db f (m s)) (kept.at s) }
    where
      reply-db : {A : Type 0} (f : A → Response) (r : Result A × World) → (reply f r).1.db ≡ r.1.db
      reply-db f (ok a, s) = refl
      reply-db f (err e, s) = refl

  with_uuid-Keeps :
      (texts : Texts) (raw : String) (f : Uuid → Handler)
      → ((id : Uuid) → Keeps H (f id))
      → Keeps H (with_uuid texts raw f)
  with_uuid-Keeps texts raw f kept = elim (Option-cases (texts.parse_uuid raw)) [
    | inl bad ↦ rw (bad, with_uuid) (answer-Keeps bad_request)
    | inr (id, good) ↦ rw (good, with_uuid) (kept id)
  ]

  module _ (cases : UseCases H) (texts : Texts) where
    module _ (ids : OpeningIds) (now : Time) (correlation : Uuid) where
      open_paid-Keeps :
          (player : Uuid) (req : OpenWalletRequest) (m : Result Money)
          → to_money req.initial_balance ≡ m
          → Keeps H (open_parsed texts ids now correlation (some player) req)
      open_paid-Keeps player req (ok m) h =
          rw (h, open_parsed)
            (respond-Keeps _ _ (cases.opens ids now _ (to_money-IsMoney req.initial_balance m h)))
      open_paid-Keeps player req (err e) h = rw (h, open_parsed) (answer-Keeps (respond_error e))

      open_parsed-Keeps :
          (o : Option Uuid) (req : OpenWalletRequest)
          → Keeps H (open_parsed texts ids now correlation o req)
      open_parsed-Keeps none req = answer-Keeps bad_request
      open_parsed-Keeps (some player) req =
          open_paid-Keeps player req (to_money req.initial_balance) refl

      open_bound-Keeps :
          (o : Option OpenWalletRequest) → Keeps H (open_bound texts ids now correlation o)
      open_bound-Keeps none = answer-Keeps bad_request
      open_bound-Keeps (some req) = open_parsed-Keeps (texts.parse_uuid req.player_id) req

      open_wallet-Keeps :
          (i : Option Identity) (o : Option OpenWalletRequest)
          → Keeps H (Handlers.open_wallet texts ids now correlation i o)
      unfolding Handlers.open_wallet
      open_wallet-Keeps none o = answer-Keeps unauthenticated
      open_wallet-Keeps (some i) o =
          Keeps-if (not (may_use_wallet_operations i)) _ _ (answer-Keeps forbidden)
            (open_bound-Keeps o)

    module _ (digest : List (String × Text) → String) (ids : NewIds) (now : Time) (key : String)
        (correlation : Uuid) where
      submit_built-Keeps :
          (req : SubmitTransactionRequest) (o : Result ProcessWagerCommand)
          → build_process_command texts digest req key correlation ≡ o
          → Keeps H (submit_built texts digest ids now key correlation o)
      submit_built-Keeps req (ok cmd) h = respond-Keeps _ _ (
          cases.executes ids now cmd
            (build_process_command-IsMoney texts digest ids now key correlation req cmd h))
      submit_built-Keeps req (err e) h = answer-Keeps (respond_error e)

      submit_bound-Keeps :
          (i : Identity) (o : Option SubmitTransactionRequest)
          → Keeps H (submit_bound texts digest ids now key correlation i o)
      submit_bound-Keeps i none = answer-Keeps bad_request
      submit_bound-Keeps i (some req) =
          Keeps-if (not (may_act_as_provider i req.provider_id)) _ _ (answer-Keeps forbidden)
            (submit_built-Keeps req (build_process_command texts digest req key correlation) refl)

      submit_transaction-Keeps :
          (i : Option Identity) (o : Option SubmitTransactionRequest)
          → Keeps H (Handlers.submit_transaction texts digest ids now key correlation i o)
      unfolding Handlers.submit_transaction
      submit_transaction-Keeps none o = answer-Keeps unauthenticated
      submit_transaction-Keeps (some i) o =
          Keeps-if (str_eq key "") _ _ (answer-Keeps bad_request) (submit_bound-Keeps i o)

  module _ (texts : Texts) where
    pub get_wallet-Keeps :
        (i : Option Identity) (raw : String) → Keeps H (Handlers.get_wallet texts i raw)
    unfolding Handlers.get_wallet
    get_wallet-Keeps none raw = answer-Keeps unauthenticated
    get_wallet-Keeps (some i) raw =
        with_uuid-Keeps texts raw _ λ id. respond-Keeps _ _ (read_wallet-Keeps i id)

    page_of-Keeps :
        (codec : Codec) (i : Identity) (cursor : String) (id : Uuid) (limit : Option ℤ)
        → Keeps H (page_of texts codec i cursor id limit)
    page_of-Keeps codec i cursor id none = answer-Keeps bad_request
    page_of-Keeps codec i cursor id (some n) =
        respond-Keeps _ _ (read_ledger-Keeps codec i id cursor n)

    pub get_ledger-Keeps :
        (codec : Codec) (atoi : String → Option ℤ) (i : Option Identity)
        (wallet limit cursor : String)
        → Keeps H (Handlers.get_ledger texts codec atoi i wallet limit cursor)
    unfolding Handlers.get_ledger
    get_ledger-Keeps codec atoi none wallet limit cursor = answer-Keeps unauthenticated
    get_ledger-Keeps codec atoi (some i) wallet limit cursor =
        with_uuid-Keeps texts wallet _
          λ id. page_of-Keeps codec i cursor id (limit_of texts atoi limit)

    pub reconcile-Keeps :
        (i : Option Identity) (raw : String) → Keeps H (Handlers.reconcile texts i raw)
    unfolding Handlers.reconcile
    reconcile-Keeps none raw = answer-Keeps unauthenticated
    reconcile-Keeps (some i) raw =
        with_uuid-Keeps texts raw _ λ id. respond-Keeps _ _ (read_sums-Keeps i id)

    pub get_transaction-Keeps :
        (i : Option Identity) (raw : String) → Keeps H (Handlers.get_transaction texts i raw)
    unfolding Handlers.get_transaction
    get_transaction-Keeps none raw = answer-Keeps unauthenticated
    get_transaction-Keeps (some i) raw =
        with_uuid-Keeps texts raw _ λ id. respond-Keeps _ _ (read_transaction-Keeps i id)

    pub get_provider_transaction-Keeps :
        (i : Option Identity) (provider external : String)
        → Keeps H (Handlers.get_provider_transaction texts i provider external)
    unfolding Handlers.get_provider_transaction
    get_provider_transaction-Keeps none provider external = answer-Keeps unauthenticated
    get_provider_transaction-Keeps (some i) provider external =
        respond-Keeps _ _ (read_operation-Keeps i provider external)

  -- Whatever is requested, the tables go on as the use cases let them.
  module _ (cases : UseCases H) (p : Packages) (r : Request) where
    handler_of-Keeps : (c : Call) (i : Option Identity) → Keeps H (handler_of p r c i)
    unfolding handler_of
    handler_of-Keeps (Call.open_wallet req) i =
        open_wallet-Keeps cases p.texts r.opening_ids r.now _ i req
    handler_of-Keeps (Call.get_wallet id) i = get_wallet-Keeps p.texts i id
    handler_of-Keeps (Call.get_ledger id limit cursor) i =
        get_ledger-Keeps p.texts p.codec p.atoi i id limit cursor
    handler_of-Keeps (Call.reconcile id) i = reconcile-Keeps p.texts i id
    handler_of-Keeps (Call.submit_transaction key req) i =
        submit_transaction-Keeps cases p.texts p.digest r.ids r.now key _ i req
    handler_of-Keeps (Call.get_transaction id) i = get_transaction-Keeps p.texts i id
    handler_of-Keeps (Call.get_provider_transaction provider external) i =
        get_provider_transaction-Keeps p.texts i provider external

    authenticated-Keeps : (o : Option Identity) → Keeps H (proceed p r o (handler_of p r r.call))
    authenticated-Keeps none = answer-Keeps unauthenticated
    authenticated-Keeps (some i) = handler_of-Keeps r.call (some i)

    pub serve-Keeps : Keeps H (serve p r)
    unfolding serve chain authenticate
    serve-Keeps = authenticated-Keeps (identity_of p.trim p.verifier r.authorization)
