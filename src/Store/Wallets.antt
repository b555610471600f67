-- ===== src/Store/Wallets.antt =====
-- internal/postgres/wallet_repo.go over the table `wallet` of migrations/000001.
use jungle.Base.{
  Bool, true, false, not, ◌&&◌, ◌||◌, Option, none, some, List, [], ◌∷◌, ◌++◌, ◌==◌, str_eq,
  if◌then◌else◌, codes,
}
use jungle.Values.{Uuid}
use jungle.Int.{ℤ, pos, ltb_ℤ, eqb_ℤ}
use jungle.Money.{Currency, from_minor_units, matches_currency}
use jungle.Wallet.{Wallet, rehydrate_wallet}
use jungle.Result.{
  Result, err, not_found, wallet_already_exists, concurrency_conflict, infrastructure,
}
use jungle.Store.Tables.{WalletRow}
use jungle.Store.Action.{Action, raise, lift, gets, modify, fail_if, call, ◌>>=◌, ◌>>◌}

-- The columns that are written and read.
abbrev pub row_of : Wallet → WalletRow
row_of w = record {
  id = w.id;
  player_id = w.player_id;
  currency = w.currency;
  balance_minor_units = w.balance.minor_units;
  version = w.version;
  created_at = w.created_at;
  updated_at = w.updated_at;
}

-- The parameters of `RehydrateWallet` that `get` builds from a row.
abbrev pub wallet_of : WalletRow → Wallet
wallet_of r = record {
  id = r.id;
  player_id = r.player_id;
  currency = r.currency;
  balance = from_minor_units r.balance_minor_units r.currency;
  version = r.version;
  created_at = r.created_at;
  updated_at = r.updated_at;
}

-- `WHERE id = $1`; the primary key leaves one row at most.
unfoldable pub find_wallet : Uuid → List WalletRow → Option WalletRow
find_wallet id [] = none
find_wallet id (r ∷ rows) = if r.id == id then some r else find_wallet id rows

-- `SET` on the row with an id.
unfoldable pub replace_wallet : WalletRow → List WalletRow → List WalletRow
replace_wallet new [] = []
replace_wallet new (r ∷ rows) = if r.id == new.id then new ∷ rows else r ∷ replace_wallet new rows

unfoldable pub has_player_currency : Uuid → Currency → List WalletRow → Bool
has_player_currency player currency [] = false
has_player_currency player currency (r ∷ rows) =
    r.player_id == player && str_eq r.currency currency || has_player_currency player currency rows

-- The CHECK constraints of the table.
abbrev pub row_checks : WalletRow → Bool
row_checks r =
    not (ltb_ℤ r.balance_minor_units (pos 0))
    && not (ltb_ℤ r.version (pos 1))
    && matches_currency (codes r.currency)

abbrev pub is_found : Option WalletRow → Bool
is_found none = false
is_found (some r) = true

-- `Insert`: a violation of `wallet_player_currency_unique` has its own error.
unfoldable pub insert_wallet : Wallet → Action (Unit {0})
insert_wallet w = do
  call
  rows ← gets (λ db. db.wallets)
  fail_if (not (row_checks (row_of w))) infrastructure
  fail_if (is_found (find_wallet w.id rows)) infrastructure
  fail_if (has_player_currency w.player_id w.currency rows) wallet_already_exists
  modify (λ db. record db { wallets = db.wallets ++ row_of w ∷ [] })

abbrev pub or_not_found : Option WalletRow → Result Wallet
or_not_found none = err not_found
or_not_found (some r) = rehydrate_wallet (wallet_of r)

-- `Get` and `GetForUpdate`: the row lock is not modelled.
unfoldable pub get_wallet : Uuid → Action Wallet
get_wallet id = do call; rows ← gets (λ db. db.wallets); lift (or_not_found (find_wallet id rows))

abbrev pub updated_row : Wallet → WalletRow → WalletRow
updated_row w r = record r {
  balance_minor_units = w.balance.minor_units;
  version = w.version;
  updated_at = w.updated_at;
}

-- `AND version = $5`, on the row with the wallet's id.
abbrev pub update_found : Wallet → ℤ → Option WalletRow → Action (Unit {0})
update_found w expected none = raise concurrency_conflict
update_found w expected (some r) = do
  fail_if (not (eqb_ℤ r.version expected)) concurrency_conflict
  fail_if (not (row_checks (updated_row w r))) infrastructure
  modify (λ db. record db { wallets = replace_wallet (updated_row w r) db.wallets })

-- `UpdateBalance`: no row is hit if the version is no longer the expected one.
unfoldable pub update_balance : Wallet → ℤ → Action (Unit {0})
update_balance w expected = do
  call
  rows ← gets (λ db. db.wallets)
  update_found w expected (find_wallet w.id rows)

-- `ExistsForPlayerCurrency`
unfoldable pub exists_for_player_currency : Uuid → Currency → Action Bool
exists_for_player_currency player currency = do
  call
  gets (λ db. has_player_currency player currency db.wallets)
