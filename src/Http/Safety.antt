-- ===== src/Http/Safety.antt =====
-- internal/httpapi/handlers.go: what a submitted transaction can do to the tables, whatever the
-- request says.
use jungle.Base.{
  ◌≡◌, ◌∙◌, refl, String, true, false, not, Option, some, none, List, inl, inr, Bool-cases, ◌⊎◌,
  str_eq,
}
use jungle.Values.{Uuid, Time}
use jungle.Money.{Money, new_currency}
use jungle.Money.Decimal.{Text}
use jungle.Money.Arithmetic.{IsMoney}
use jungle.Money.Bounds.{parse_non_negative-IsMoney}
use jungle.Result.{Result, ok, err, invalid_field, >>=-eq-ok, >>=-err, >>=-ok}
use jungle.Store.Action.{World}
use jungle.Store.Reconciled.{IsReconciled}
use jungle.App.Identity.{Identity, may_act_as_provider}
use jungle.App.Settle.{NewIds, ProcessWagerResult}
use jungle.App.ProcessWager.{ProcessWagerCommand, execute}
use jungle.App.ProcessWager.Reconciles.{execute-IsReconciled, execute-err}
use jungle.Http.Dto.{Texts, MoneyDto, to_money, SubmitTransactionRequest, parse_kind}
use jungle.Http.Errors.{
  Response, error_body, respond_error, bad_request, forbidden, unauthenticated,
}
use jungle.Http.Handlers.{
  reply, build_process_command, respond_submit_result, submit_built, submit_bound,
  submit_transaction, uuid_field,
}

pub to_money-IsMoney : (d : MoneyDto) (m : Money) → to_money d ≡ ok m → IsMoney m
unfolding to_money
to_money-IsMoney d m h =
    let (currency, _, parsed) = >>=-eq-ok (new_currency d.currency) _ h in
    parse_non_negative-IsMoney d.amount currency m parsed

module _ (texts : Texts) (digest : List (String × Text) → String) (ids : NewIds) (now : Time)
    (key : String) (correlation : Uuid) where
  pub build_process_command-IsMoney :
      (req : SubmitTransactionRequest) (cmd : ProcessWagerCommand)
      → build_process_command texts digest req key correlation ≡ ok cmd
      → IsMoney cmd.money
  unfolding build_process_command
  build_process_command-IsMoney req cmd h =
      let (player, _, h₁) = >>=-eq-ok (uuid_field texts req.player_id) _ h in
      let (wallet, _, h₂) = >>=-eq-ok (uuid_field texts req.wallet_id) _ h₁ in
      let (kind, _, h₃) = >>=-eq-ok (parse_kind req.kind) _ h₂ in
      let (amount, parsed, h₄) = >>=-eq-ok (to_money req.money) _ h₃ in
      let same : cmd.money ≡ amount = cc in rw same (to_money-IsMoney req.money amount parsed)

  -- What a response says of the tables: after an error body they are as they were, and otherwise
  -- they are reconciled if they were.
  abbrev Kept : Response × World → World → Type 0
  Kept r s =
      (IsReconciled s.db → IsReconciled r.1.db)
      × ((code : String) → r.0.body ≡ error_body code → r.1.db ≡ s.db)

  answer-Kept : (r : Response) (s : World) → Kept (r, s) s
  answer-Kept r s = (λ inv. inv, λ code h. refl)

  reply-Kept :
      (cmd : ProcessWagerCommand) (s : World)
      → IsMoney cmd.money
      → Kept (reply (respond_submit_result texts digest) (execute ids now cmd s)) s
  unfolding respond_submit_result
  reply-Kept cmd s money = go (execute ids now cmd s).0 (execute ids now cmd s).1 refl
    where
      go :
          (r : Result ProcessWagerResult) (s' : World)
          → execute ids now cmd s ≡ (r, s')
          → Kept (reply (respond_submit_result texts digest) (r, s')) s
      go (ok r) s' h =
          (λ inv. execute-IsReconciled ids now cmd money s r s' inv h, λ code body. absurd cc)
      go (err e) s' h =
          let same = execute-err ids now cmd s e s' h in (λ inv. rw same inv, λ code body. same)

  submit_built-Kept :
      (req : SubmitTransactionRequest) (o : Result ProcessWagerCommand) (s : World)
      → build_process_command texts digest req key correlation ≡ o
      → Kept (submit_built texts digest ids now key correlation o s) s
  submit_built-Kept req (ok cmd) s h = reply-Kept cmd s (build_process_command-IsMoney req cmd h)
  submit_built-Kept req (err e) s h = answer-Kept (respond_error e) s

  submit_bound-Kept :
      (i : Identity) (o : Option SubmitTransactionRequest) (s : World)
      → Kept (submit_bound texts digest ids now key correlation i o s) s
  submit_bound-Kept i none s = answer-Kept bad_request s
  submit_bound-Kept i (some req) s =
      elim (Bool-cases (not (may_act_as_provider i req.provider_id))) [
        | inl foreign ↦ rw foreign (answer-Kept forbidden s)
        | inr own ↦
            rw own (
              submit_built-Kept req (build_process_command texts digest req key correlation) s refl)
      ]

  -- Whatever a submitted request says and however it ends: reconciled tables stay reconciled, and a
  -- response with an error body has changed no table.
  pub submit_transaction-Kept :
      (i : Option Identity) (req : Option SubmitTransactionRequest) (s : World)
      → (IsReconciled s.db
          → IsReconciled (submit_transaction texts digest ids now key correlation i req s).1.db)
        × ((code : String)
            → (submit_transaction texts digest ids now key correlation i req s).0.body
              ≡ error_body code
            → (submit_transaction texts digest ids now key correlation i req s).1.db ≡ s.db)
  unfolding submit_transaction
  submit_transaction-Kept none req s = answer-Kept unauthenticated s
  submit_transaction-Kept (some i) req s = elim (Bool-cases (str_eq key "")) [
    | inl missing ↦ rw missing (answer-Kept bad_request s)
    | inr given ↦ rw given (submit_bound-Kept i req s)
  ]

  uuid_field-none :
      (raw : String) → texts.parse_uuid raw ≡ none → uuid_field texts raw ≡ err invalid_field
  uuid_field-none raw h = rw (h, uuid_field) refl

  uuid_field-some :
      (raw : String) (id : Uuid) → texts.parse_uuid raw ≡ some id → uuid_field texts raw ≡ ok id
  uuid_field-some raw id h = rw (h, uuid_field) refl

  invalid_wallet :
      (req : SubmitTransactionRequest) (o : Option Uuid)
      → texts.parse_uuid req.player_id ≡ o
      → texts.parse_uuid req.wallet_id ≡ none
      → build_process_command texts digest req key correlation ≡ err invalid_field
  unfolding build_process_command
  invalid_wallet req none player wallet =
      >>=-err (uuid_field texts req.player_id) _ (uuid_field-none req.player_id player)
  invalid_wallet req (some id) player wallet =
      >>=-ok (uuid_field texts req.player_id) _ (uuid_field-some req.player_id id player)
      ∙ >>=-err (uuid_field texts req.wallet_id) _ (uuid_field-none req.wallet_id wallet)

  build_process_command-invalid :
      (req : SubmitTransactionRequest)
      → (texts.parse_uuid req.player_id ≡ none) ⊎ (texts.parse_uuid req.wallet_id ≡ none)
      → build_process_command texts digest req key correlation ≡ err invalid_field
  unfolding build_process_command
  build_process_command-invalid req (inl player) =
      >>=-err (uuid_field texts req.player_id) _ (uuid_field-none req.player_id player)
  build_process_command-invalid req (inr wallet) =
      invalid_wallet req (texts.parse_uuid req.player_id) refl wallet

  -- An allowed request whose player or wallet is no UUID, though it is the caller's mistake, is
  -- answered with 503 as if the service were unavailable, and nothing is read or written.
  pub submit_transaction-unavailable :
      (i : Identity) (req : SubmitTransactionRequest) (s : World)
      → str_eq key "" ≡ false
      → may_act_as_provider i req.provider_id ≡ true
      → (texts.parse_uuid req.player_id ≡ none) ⊎ (texts.parse_uuid req.wallet_id ≡ none)
      → submit_transaction texts digest ids now key correlation (some i) (some req) s
        ≡ (record { status = 503; body = error_body "UNAVAILABLE" }, s)
  unfolding submit_transaction respond_error
  submit_transaction-unavailable i req s given own bad =
      rw (given, own, build_process_command-invalid req bad) refl
