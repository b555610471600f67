-- ===== src/Store/TransactionWrites.antt =====
-- internal/postgres/transaction_repo.go: `Insert`, `Update` and the retries of a reference, with
-- the constraints and the trigger of migrations/000002. An insert meets the CHECK constraints
-- first, then the unique ones in the order of their creation, then the foreign keys.
use jungle.Base.{
  Bool, true, false, not, ◌&&◌, ◌||◌, Option, none, some, List, [], ◌∷◌, ◌++◌, ◌==◌, if◌then◌else◌,
  codes,
}
use jungle.Values.{Time}
use jungle.Int.{pos, ltb_ℤ}
use jungle.Money.{matches_currency}
use jungle.Wagertx.{WagerTransaction, is_processed}
use jungle.Wagertx.Constants.{
  Status, is_opening, kind_is_valid, status_is_valid, status_is_terminal, requires_reference,
  allows_reference,
}
use jungle.Result.{
  ok, not_found, wallet_already_exists, idempotency_conflict, operation_identity_conflict,
  infrastructure,
}
use jungle.Store.Tables.{TransactionRow}
use jungle.Store.Action.{Action, raise, gets, modify, fail_if, call, ◌>>=◌, ◌>>◌}
use jungle.Store.Wallets.{find_wallet, is_found}
use jungle.Store.Transactions.{
  row_of, null_uuid, null_code, resulting_balance_arg, has_row, has_id, has_key, has_identity,
  find_first,
}

module _ {ℓ} {A : Type ℓ} where
  abbrev pub is_set : Option A → Bool
  is_set none = false
  is_set (some a) = true

abbrev is_refused : Status → Bool
is_refused Status.rejected = true
is_refused Status.failed = true
is_refused _ = false

-- `wager_transaction_origin`
abbrev origin_check : TransactionRow → Bool
origin_check r =
    if is_opening r.kind
    then not (is_set r.provider_id)
      && not (is_set r.external_transaction_id)
      && not (is_set r.idempotency_key)
      && not (is_set r.payload_hash)
      && not (is_set r.round_id)
      && not (is_set r.game_id)
    else is_set r.provider_id
      && is_set r.external_transaction_id
      && is_set r.idempotency_key
      && is_set r.payload_hash
      && is_set r.round_id
      && is_set r.game_id

-- `wager_transaction_reference`, on the kinds that the column may hold
abbrev reference_check : TransactionRow → Bool
reference_check r =
    if requires_reference r.kind
    then is_set r.reference_external_transaction_id
    else allows_reference r.kind || not (is_set r.reference_external_transaction_id)

abbrev same : Bool → Bool → Bool
same true b = b
same false b = not b

-- The CHECK constraints of the table.
unfoldable pub row_checks : TransactionRow → Bool
row_checks r =
    kind_is_valid r.kind
    && status_is_valid r.status
    && not (ltb_ℤ r.amount_minor_units (pos 0))
    && matches_currency (codes r.currency)
    && origin_check r
    && reference_check r
    && same (is_refused r.status) (is_set r.failure_code)
    && same (is_processed r.status) (is_set r.resulting_balance_minor_units)

abbrev pub has_same_key : TransactionRow → TransactionRow → Bool
has_same_key new r = elim new.idempotency_key [ none ↦ false | some key ↦ has_key key r ]

abbrev pub has_same_identity : TransactionRow → TransactionRow → Bool
has_same_identity new r = elim new.provider_id [
  | none ↦ false
  | some provider ↦ elim new.external_transaction_id [
    | none ↦ false
    | some external ↦ has_identity provider external r
  ]
]

-- The partial index `wager_transaction_one_opening_per_wallet`
abbrev pub has_same_opening : TransactionRow → TransactionRow → Bool
has_same_opening new r = is_opening new.kind && is_opening r.kind && r.wallet_id == new.wallet_id

-- The foreign key `reference_transaction_id`; a row may name itself.
abbrev reference_exists : TransactionRow → List TransactionRow → Bool
reference_exists new rows = elim new.reference_transaction_id [
  | none ↦ true
  | some id ↦ id == new.id || has_row (has_id id) rows
]

unfoldable pub insert_row : TransactionRow → Action (Unit {0})
insert_row new = do
  wallets ← gets (λ db. db.wallets)
  rows ← gets (λ db. db.transactions)
  fail_if (not (row_checks new)) infrastructure
  fail_if (has_row (has_id new.id) rows) infrastructure
  fail_if (has_row (has_same_identity new) rows) operation_identity_conflict
  fail_if (has_row (has_same_key new) rows) idempotency_conflict
  fail_if (has_row (has_same_opening new) rows) wallet_already_exists
  fail_if (not (is_found (find_wallet new.wallet_id wallets))) infrastructure
  fail_if (not (reference_exists new rows)) infrastructure
  modify (λ db. record db { transactions = db.transactions ++ new ∷ [] })

abbrev get_now : Action Time
get_now s = (ok s.db_now, s)

-- `Insert`
unfoldable pub insert_transaction : WagerTransaction → Action (Unit {0})
insert_transaction t = do call; now ← get_now; insert_row (row_of now t)

-- `SET` on the first row with the id of the new one.
unfoldable pub replace_row : TransactionRow → List TransactionRow → List TransactionRow
replace_row new [] = []
replace_row new (r ∷ rows) = if r.id == new.id then new ∷ rows else r ∷ replace_row new rows

abbrev pub updated_row : WagerTransaction → TransactionRow → TransactionRow
updated_row t r = record r {
  status = t.status;
  reference_transaction_id = null_uuid t.reference_transaction_id;
  failure_code = null_code t.failure_code;
  resulting_balance_minor_units = resulting_balance_arg t;
  updated_at = t.updated_at;
}

-- The trigger `wager_transaction_terminal_guard` refuses a row in a terminal status.
abbrev pub update_found : WagerTransaction → Option TransactionRow → Action (Unit {0})
update_found t none = raise not_found
update_found t (some r) = do
  fail_if (status_is_terminal r.status) infrastructure
  fail_if (not (row_checks (updated_row t r))) infrastructure
  rows ← gets (λ db. db.transactions)
  fail_if (not (reference_exists (updated_row t r) rows)) infrastructure
  modify (λ db. record db { transactions = replace_row (updated_row t r) db.transactions })

-- `Update`
unfoldable pub update_transaction : WagerTransaction → Action (Unit {0})
update_transaction t = do
  call
  rows ← gets (λ db. db.transactions)
  update_found t (find_first (has_id t.id) rows)
