-- ===== src/Http/Router/Access.antt =====
-- internal/httpapi/auth.go and handlers.go: nothing is written but for an identity that may.
use jungle.Base.{
  arith, ◌≡◌, ◌⊎◌, refl, ◌∙◌, none, some, Bool, true, false, inl, inr, Bool-cases, Option-cases,
  str_eq,
}
use jungle.Store.Action.{World}
use jungle.Store.Action.Histories.{History, Keeps, Keeps-if}
use jungle.App.Identity.{Identity, may_use_wallet_operations, may_act_as_provider}
use jungle.Http.Auth.{identity_of}
use jungle.Http.Errors.{error_body, bad_request, forbidden}
use jungle.Http.Handlers
use jungle.Http.Handlers.{Handler, answer, submit_bound}
use jungle.Http.Router.{Packages, Request, Call, serve, handler_of, chain, authenticate}
use jungle.Http.Router.Histories.{
  answer-Keeps, get_wallet-Keeps, get_ledger-Keeps, reconcile-Keeps, get_transaction-Keeps,
  get_provider_transaction-Keeps,
}

-- Who may have a call change the tables.
abbrev may_write : Identity → Call → Bool
may_write i (Call.open_wallet req) = may_use_wallet_operations i
may_write i (Call.submit_transaction key (some req)) = may_act_as_provider i req.provider_id
may_write i _ = false

-- The same, by the roles: an internal service may open wallets and report for every provider, a
-- provider may report for itself.
abbrev pub MayWrite : Identity → Call → Type 0
MayWrite i (Call.open_wallet req) = i.is_internal ≡ true
MayWrite i (Call.submit_transaction key (some req)) =
    (i.is_internal ≡ true)
    ⊎ ((str_eq i.provider_id "" ≡ false) × (str_eq i.provider_id req.provider_id ≡ true))
MayWrite i _ = ⊥

may_write-MayWrite : (i : Identity) (c : Call) → may_write i c ≡ true → MayWrite i c
may_write-MayWrite i (Call.open_wallet req) h = h
may_write-MayWrite i (Call.submit_transaction key (some req)) h = ground (arith, h)
may_write-MayWrite i (Call.submit_transaction key none) h = cc
may_write-MayWrite i (Call.get_wallet id) h = cc
may_write-MayWrite i (Call.get_ledger id limit cursor) h = cc
may_write-MayWrite i (Call.reconcile id) h = cc
may_write-MayWrite i (Call.get_transaction id) h = cc
may_write-MayWrite i (Call.get_provider_transaction p e) h = cc

-- The tables stay as they are.
abbrev unchanged : History
unchanged = record { Leads = λ a b. b ≡ a; stay = λ db. refl; join = λ a b c p q. q ∙ p }

module _ (p : Packages) (r : Request) where
  serve-unidentified :
      (s : World)
      → identity_of p.trim p.verifier r.authorization ≡ none
      → serve p r s ≡ (record { status = 401; body = error_body "UNAUTHENTICATED" }, s)
  unfolding serve chain authenticate
  serve-unidentified s h = rw h refl

  handler_of-unchanged :
      (c : Call) (i : Identity)
      → may_write i c ≡ false
      → Keeps unchanged (handler_of p r c (some i))
  unfolding handler_of Handlers.open_wallet Handlers.submit_transaction
  handler_of-unchanged (Call.open_wallet req) i barred = rw barred (answer-Keeps forbidden)
  handler_of-unchanged (Call.get_wallet id) i barred = get_wallet-Keeps p.texts (some i) id
  handler_of-unchanged (Call.get_ledger id limit cursor) i barred =
      get_ledger-Keeps p.texts p.codec p.atoi (some i) id limit cursor
  handler_of-unchanged (Call.reconcile id) i barred = reconcile-Keeps p.texts (some i) id
  handler_of-unchanged (Call.submit_transaction key none) i barred =
      Keeps-if (str_eq key "") _ _ (answer-Keeps bad_request) (answer-Keeps bad_request)
  handler_of-unchanged (Call.submit_transaction key (some req)) i barred =
      Keeps-if (str_eq key "") _ _ (answer-Keeps bad_request) (rw barred (answer-Keeps forbidden))
  handler_of-unchanged (Call.get_transaction id) i barred =
      get_transaction-Keeps p.texts (some i) id
  handler_of-unchanged (Call.get_provider_transaction provider external) i barred =
      get_provider_transaction-Keeps p.texts (some i) provider external

  -- Whatever is requested, the tables stay as they are, or the request's bearer token gave an identity
  -- that may write: an internal service for a request to open a wallet, and for the report of a bet,
  -- win, loss or reversal an internal service or the provider that the request names. A request without an identity is answered 401.
  pub serve-allowed :
      (s : World)
      → ((identity_of p.trim p.verifier r.authorization ≡ none)
          × (serve p r s ≡ (record { status = 401; body = error_body "UNAUTHENTICATED" }, s)))
        ⊎ ((i : Identity) × (identity_of p.trim p.verifier r.authorization ≡ some i)
            × (((serve p r s).1.db ≡ s.db) ⊎ MayWrite i r.call))
  unfolding serve chain authenticate
  serve-allowed s = elim (Option-cases (identity_of p.trim p.verifier r.authorization)) [
    | inl absent ↦ inl (absent, serve-unidentified s absent)
    | inr (i, found) ↦ inr (
      i,
      found,
      elim (Bool-cases (may_write i r.call)) [
        | inl may ↦ inr (may_write-MayWrite i r.call may)
        | inr barred ↦ inl (rw found ((handler_of-unchanged r.call i barred).at s))
      ],
    )
  ]
