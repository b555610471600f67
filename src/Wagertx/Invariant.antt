-- ===== src/Wagertx/Invariant.antt =====
-- internal/domain/wagertx: what holds of every transaction that the constructors and methods make.
-- The conditions are those that migrations/000002_create_wager_transaction.up.sql checks.
use jungle.Base.{
  ◌≡◌, ◌≢◌, refl, subst, Bool, true, false, not, ◌&&◌, ◌||◌, List, [], ◌∷◌, arith, str_eq,
  if◌then◌else◌,
}
use jungle.Values.{is_nil, is_zero_time, nil_id}
use jungle.Int.{pos, ◌≤ℤ◌}
use jungle.Money.{Money}
use jungle.Result.{
  Result, ok, err, passed, ok-injective, opening_not_external, invalid_kind, invalid_transaction,
  invalid_amount_for_kind, reference_required, reference_not_applicable,
}
use jungle.Wagertx.Constants.{
  Kind, Status, pending_reference, rejected, failed, allowed, kind_is_valid, is_valid_external,
  status_is_valid, is_opening, requires_reference, allows_reference, is_no_code,
}
use jungle.Wagertx.{
  WagerTransaction, NewOpeningParams, NewExternalParams, RehydrateParams, new_opening, new_external,
  rehydrate, is_processed, opening_of, external_of, lacks_metadata, bad_amount, transition_to,
}
use jungle.Wagertx.Lifecycle.{Change, process, reject, fail, await, resolve, change, kept, run}

-- The texts that name the provider's operation.
abbrev pub all_present : WagerTransaction → Bool
all_present t = not (
    str_eq t.provider_id ""
    || str_eq t.external_transaction_id ""
    || str_eq t.idempotency_key ""
    || str_eq t.payload_hash ""
    || str_eq t.round_id ""
    || str_eq t.game_id "")

abbrev pub all_absent : WagerTransaction → Bool
all_absent t =
    str_eq t.provider_id ""
    && str_eq t.external_transaction_id ""
    && str_eq t.idempotency_key ""
    && str_eq t.payload_hash ""
    && str_eq t.round_id ""
    && str_eq t.game_id ""

-- An opening has no provider; any other kind has all that the provider sends.
abbrev pub origin_agrees : WagerTransaction → Bool
origin_agrees t = if is_opening t.kind then all_absent t else all_present t

-- A reversal names its reference, a win may, and the others do not.
abbrev pub reference_agrees : WagerTransaction → Bool
reference_agrees t =
    if requires_reference t.kind
    then not (str_eq t.reference_external_tx_id "")
    else allows_reference t.kind || str_eq t.reference_external_tx_id ""

abbrev pub is_refused : Status → Bool
is_refused rejected = true
is_refused failed = true
is_refused _ = false

abbrev pub is_awaiting : Status → Bool
is_awaiting pending_reference = true
is_awaiting _ = false

pub record IsValid (t : WagerTransaction) : Type 0 where
  pub has_id : t.id ≢ nil_id
  pub has_wallet : t.wallet_id ≢ nil_id
  pub has_player : t.player_id ≢ nil_id
  pub kind_valid : kind_is_valid t.kind ≡ true
  pub status_valid : status_is_valid t.status ≡ true
  pub amount_nonneg : pos 0 ≤ℤ t.money.minor_units
  pub origin : origin_agrees t ≡ true
  pub reference : reference_agrees t ≡ true
  -- a failure code on exactly the refused transactions
  pub code : is_no_code t.failure_code ≡ not (is_refused t.status)
  -- a resulting balance on exactly the processed ones
  pub result : t.has_resulting_balance ≡ is_processed t.status
  pub awaiting : is_awaiting t.status ≡ true → requires_reference t.kind ≡ true

new_opening_facts :
    (p : NewOpeningParams) (t : WagerTransaction)
    → new_opening p ≡ ok t
    → (opening_of p ≡ t)
      × (p.id ≢ nil_id)
      × (p.wallet_id ≢ nil_id)
      × (p.player_id ≢ nil_id)
      × (pos 1 ≤ℤ p.money.minor_units)
unfolding new_opening
new_opening_facts p t h = ground arith

is_true : {b : Bool} → not b ≡ false → b ≡ true
is_true h = ground arith

-- The eight checks of `NewExternal`, none of which has failed.
pub new_external_facts :
    (p : NewExternalParams) (t : WagerTransaction)
    → new_external p ≡ ok t
    → (external_of p ≡ t)
      × ((is_nil p.id || is_nil p.wallet_id || is_nil p.player_id) ≡ false)
      × (is_opening p.kind ≡ false)
      × (is_valid_external p.kind ≡ true)
      × (lacks_metadata p ≡ false)
      × (bad_amount p.kind p.money ≡ false)
      × ((requires_reference p.kind && str_eq p.reference_external_transaction_id "") ≡ false)
      × ((not (allows_reference p.kind) && not (str_eq p.reference_external_transaction_id ""))
          ≡ false)
unfolding new_external
new_external_facts p t h =
    let (external, h₁) = passed (is_opening p.kind) opening_not_external _ h in
    let (valid, h₂) = passed (not (is_valid_external p.kind)) invalid_kind _ h₁ in
    let (ids, h₃) =
      passed (is_nil p.id || is_nil p.wallet_id || is_nil p.player_id) invalid_transaction _ h₂ in
    let (texts, h₄) = passed (lacks_metadata p) invalid_transaction _ h₃ in
    let (_, h₅) = passed (is_zero_time p.now) invalid_transaction _ h₄ in
    let (amount, h₆) = passed (bad_amount p.kind p.money) invalid_amount_for_kind _ h₅ in
    let (needed, h₇) =
      passed (requires_reference p.kind && str_eq p.reference_external_transaction_id "")
        reference_required _ h₆ in
    let (permitted, h₈) =
      passed (not (allows_reference p.kind) && not (str_eq p.reference_external_transaction_id ""))
        reference_not_applicable _ h₇ in
    (ok-injective h₈, ids, external, is_true valid, texts, amount, needed, permitted)

-- A transaction that `NewOpening` makes is valid.
new_opening-IsValid :
    (p : NewOpeningParams) (t : WagerTransaction) → new_opening p ≡ ok t → IsValid t
unfolding kind_is_valid status_is_valid requires_reference allows_reference is_no_code
new_opening-IsValid p t h =
    let (e, has_id, has_wallet, has_player, positive) = new_opening_facts p t h in
    subst IsValid {x = opening_of p} e (record {
      has_id = has_id;
      has_wallet = has_wallet;
      has_player = has_player;
      kind_valid = refl;
      status_valid = refl;
      amount_nonneg = omega arith;
      origin = refl;
      reference = refl;
      code = refl;
      result = refl;
      awaiting = λ k. cc;
    })

amount_of_kind :
    (k : Kind) (m : Money)
    → is_valid_external k ≡ true
    → bad_amount k m ≡ false
    → pos 0 ≤ℤ m.minor_units
unfolding is_valid_external bad_amount
amount_of_kind k m v h = ground arith

-- A transaction that `NewExternal` makes is valid.
pub new_external-IsValid :
    (p : NewExternalParams) (t : WagerTransaction) → new_external p ≡ ok t → IsValid t
unfolding kind_is_valid status_is_valid is_no_code
new_external-IsValid p t h =
    let (e, ids, external, kind, texts, amount, needed, permitted) = new_external_facts p t h in
    subst IsValid {x = external_of p} e (record {
      has_id = ground (arith, ids);
      has_wallet = ground (arith, ids);
      has_player = ground (arith, ids);
      kind_valid = rw (external, kind);
      status_valid = refl;
      amount_nonneg = amount_of_kind p.kind p.money kind amount;
      origin = rw (external, texts);
      reference = ground (arith, needed, permitted);
      code = refl;
      result = refl;
      awaiting = λ k. cc;
    })

-- Each method that returns no error keeps the transaction valid.
pub change-IsValid :
    (c : Change) (t t' : WagerTransaction) → IsValid t → change c t ≡ ok t' → IsValid t'
unfolding change transition_to allowed status_is_valid
change-IsValid (process balance now) t t' v h = ground arith
change-IsValid (reject code now) t t' v h = ground arith
change-IsValid (fail code now) t t' v h = ground arith
change-IsValid (await now) t t' v h = ground arith
change-IsValid (resolve id) t t' v h = ground arith

-- Every sequence of calls keeps the transaction valid, the calls that return an error included.
pub run-IsValid : (cs : List Change) (t : WagerTransaction) → IsValid t → IsValid (run cs t)
unfolding run
run-IsValid [] t v = v
run-IsValid (c ∷ cs) t v = run-IsValid cs (kept t (change c t)) (kept-IsValid (change c t) refl)
  where
    kept-IsValid : (r : Result WagerTransaction) → change c t ≡ r → IsValid (kept t r)
    kept-IsValid (ok t') h = change-IsValid c t t' v h
    kept-IsValid (err e) h = v

-- The fields that `Rehydrate` is given for a stored transaction.
abbrev pub stored : WagerTransaction → RehydrateParams
stored t = record {
  id = t.id;
  wallet_id = t.wallet_id;
  player_id = t.player_id;
  kind = t.kind;
  money = t.money;
  status = t.status;
  provider_id = t.provider_id;
  external_transaction_id = t.external_transaction_id;
  idempotency_key = t.idempotency_key;
  payload_hash = t.payload_hash;
  round_id = t.round_id;
  game_id = t.game_id;
  reference_external_transaction_id = t.reference_external_tx_id;
  reference_transaction_id = t.reference_transaction_id;
  failure_code = t.failure_code;
  resulting_balance = t.resulting_balance;
  created_at = t.created_at;
  updated_at = t.updated_at;
}

-- A valid transaction is read back from its fields as it was.
pub rehydrate-stored : (t : WagerTransaction) → IsValid t → rehydrate (stored t) ≡ ok t
unfolding rehydrate
rehydrate-stored t v = ground arith
