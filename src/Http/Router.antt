-- ===== src/Http/Router.antt =====
-- internal/httpapi/module.go and internal/router/router.go: the routes behind the authentication. How
-- a path is matched with a pattern belongs to the web framework; a request is what that has found.
pub mod Access
pub mod Histories
use jungle.Base.{ℕ, String, Option, none, some, List, [], ◌∷◌}
use jungle.Values.{Uuid, Time}
use jungle.Int.{ℤ}
use jungle.Money.Decimal.{Text}
use jungle.Store.Ledger.{Codec}
use jungle.App.Identity.{Identity}
use jungle.App.Settle.{NewIds}
use jungle.App.OpenWallet.{OpeningIds}
use jungle.Http.Auth.{identity_of}
use jungle.Http.Dto.{Texts, OpenWalletRequest, SubmitTransactionRequest}
use jungle.Http.Errors.{unauthenticated}
use jungle.Http.Handlers
use jungle.Http.Handlers.{Handler, answer, correlation_id}

-- A request by its route, with the parts that its handler reads.
pub data Call : Type 0 where
  open_wallet : Option OpenWalletRequest → Call
  get_wallet : String → Call
  get_ledger : String → String → String → Call
  reconcile : String → Call
  submit_transaction : String → Option SubmitTransactionRequest → Call
  get_transaction : String → Call
  get_provider_transaction : String → String → Call

-- The routes of `NewRouteSet`.
abbrev pub method_of : Call → String
method_of (open_wallet req) = "POST"
method_of (reconcile id) = "POST"
method_of (submit_transaction key req) = "POST"
method_of _ = "GET"

abbrev pub pattern_of : Call → String
pattern_of (open_wallet req) = "/wallets"
pattern_of (get_wallet id) = "/wallets/:walletId"
pattern_of (get_ledger id limit cursor) = "/wallets/:walletId/ledger"
pattern_of (reconcile id) = "/wallets/:walletId/reconciliation"
pattern_of (submit_transaction key req) = "/wagering/transactions"
pattern_of (get_transaction id) = "/wagering/transactions/:transactionId"
pattern_of (get_provider_transaction p e) =
    "/providers/:providerId/wagering/transactions/:externalTransactionId"

-- The headers that are read, the call, and what its handling takes from outside.
pub record Request : Type 0 where
  pub authorization : Text
  pub correlation : String
  pub call : Call
  pub opening_ids : OpeningIds
  pub ids : NewIds
  pub fresh : Uuid
  pub now : Time

-- What other packages do with texts and tokens. `verifier` is none until the issuer was found.
pub record Packages : Type 0 where
  pub texts : Texts
  pub digest : List (String × Text) → String
  pub codec : Codec
  pub atoi : String → Option ℤ
  pub trim : Text → Text
  pub verifier : Option (Text → Option Identity)

-- A middleware, given the rest of the chain; the identity is that of the request's context.
abbrev pub Middleware : Type 0
Middleware = (Option Identity → Handler) → Option Identity → Handler

-- `Register`: the middlewares of a set, then the route's own handler.
unfoldable pub chain : List Middleware → (Option Identity → Handler) → Option Identity → Handler
chain [] handler = handler
chain (m ∷ ms) handler = m (chain ms handler)

module _ (p : Packages) (r : Request) where
  abbrev pub proceed : Option Identity → (Option Identity → Handler) → Handler
  proceed none next = answer unauthenticated
  proceed (some i) next = next (some i)

  -- `Authenticate`
  unfoldable pub authenticate : Middleware
  authenticate next i = proceed (identity_of p.trim p.verifier r.authorization) next

  abbrev correlation_of : Uuid
  correlation_of = correlation_id p.texts r.correlation r.fresh

  -- The handler of each route.
  unfoldable pub handler_of : Call → Option Identity → Handler
  handler_of (open_wallet req) i =
      Handlers.open_wallet p.texts r.opening_ids r.now correlation_of i req
  handler_of (get_wallet id) i = Handlers.get_wallet p.texts i id
  handler_of (get_ledger id limit cursor) i =
      Handlers.get_ledger p.texts p.codec p.atoi i id limit cursor
  handler_of (reconcile id) i = Handlers.reconcile p.texts i id
  handler_of (submit_transaction key req) i =
      Handlers.submit_transaction p.texts p.digest r.ids r.now key correlation_of i req
  handler_of (get_transaction id) i = Handlers.get_transaction p.texts i id
  handler_of (get_provider_transaction provider external) i =
      Handlers.get_provider_transaction p.texts i provider external

  -- A request that was matched with a route of the set.
  unfoldable pub serve : Handler
  unfolding chain authenticate handler_of
  serve = chain (authenticate ∷ []) (handler_of r.call) none
