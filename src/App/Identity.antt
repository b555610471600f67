-- ===== src/App/Identity.antt =====
-- internal/app/identity.go and idempotency.go: who may do what, and the fingerprint of a request.
use jungle.Base.{String, Bool, not, ◌&&◌, ◌||◌, str_eq, List, [], ◌∷◌, codes}
use jungle.Money.Decimal.{Text}

-- `Identity`
pub record Identity : Type 0 where
  pub provider_id : String
  pub is_internal : Bool

-- `MayActAsProvider`
abbrev pub may_act_as_provider : Identity → String → Bool
may_act_as_provider i provider =
    i.is_internal || not (str_eq i.provider_id "") && str_eq i.provider_id provider

-- `MayUseWalletOperations`
abbrev pub may_use_wallet_operations : Identity → Bool
may_use_wallet_operations i = i.is_internal

-- `PayloadFields`
pub record PayloadFields : Type 0 where
  pub provider_id : String
  pub external_transaction_id : String
  pub player_id : String
  pub wallet_id : String
  pub round_id : String
  pub game_id : String
  pub kind : String
  pub money_amount : Text
  pub money_currency : String
  pub reference_external_transaction_id : String

-- The map `canonical`, its values by their characters.
abbrev pub canonical : PayloadFields → List (String × Text)
canonical f =
    ("providerId", codes f.provider_id)
    ∷ ("externalTransactionId", codes f.external_transaction_id)
    ∷ ("playerId", codes f.player_id)
    ∷ ("walletId", codes f.wallet_id)
    ∷ ("roundId", codes f.round_id)
    ∷ ("gameId", codes f.game_id)
    ∷ ("kind", codes f.kind)
    ∷ ("money.amount", f.money_amount)
    ∷ ("money.currency", codes f.money_currency)
    ∷ ("referenceExternalTransactionId", codes f.reference_external_transaction_id)
    ∷ []

-- `PayloadHash`; `digest` stands for `json.Marshal` of a map of texts, which does not fail, then
-- `sha256.Sum256` and `hex.EncodeToString`.
unfoldable pub payload_hash : (List (String × Text) → String) → PayloadFields → String
payload_hash digest f = digest (canonical f)
