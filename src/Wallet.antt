-- ===== src/Wallet.antt =====
-- internal/domain/wallet/wallet.go: a wallet with its balance and version. A method with a pointer
-- receiver writes its fields only on the way to `return nil`, so it is a function that returns the
-- new wallet or an error.
pub mod Entry
pub mod Movement
pub mod Construction
use jungle.Base.{ℕ, ◌≡◌, ◌≢◌, Bool, not, ◌||◌, str_eq}
use jungle.Values.{Uuid, Time, nil_id, is_nil, is_zero_time}
use jungle.Int.{ℤ, pos, ltb_ℤ, ◌≤ℤ◌}
use jungle.Int64.{add64, IsInt64}
use jungle.Money
use jungle.Money.{Money, Currency, is_negative, is_positive}
use jungle.Result.{
  Result, ok, ◌>>=◌, ◌>>◌, fail_if, invalid_wallet, currency_mismatch, amount_not_positive,
  insufficient_balance,
}

-- `Wallet`; `RehydrateWalletParams` has the same fields.
pub record Wallet : Type 0 where
  pub id : Uuid
  pub player_id : Uuid
  pub currency : Currency
  pub balance : Money
  pub version : ℤ
  pub created_at : Time
  pub updated_at : Time

-- `NewWalletParams`
pub record NewWalletParams : Type 0 where
  pub id : Uuid
  pub player_id : Uuid
  pub currency : Currency
  pub initial_balance : Money
  pub now : Time

-- `NewWallet`
unfoldable pub new_wallet : NewWalletParams → Result Wallet
new_wallet p = do
  fail_if (is_nil p.id) invalid_wallet
  fail_if (is_nil p.player_id) invalid_wallet
  fail_if (str_eq p.currency "") invalid_wallet
  fail_if (not (str_eq p.initial_balance.currency p.currency)) currency_mismatch
  fail_if (is_negative p.initial_balance) invalid_wallet
  fail_if (is_zero_time p.now) invalid_wallet
  ok (record {
    id = p.id;
    player_id = p.player_id;
    currency = p.currency;
    balance = p.initial_balance;
    version = pos 1;
    created_at = p.now;
    updated_at = p.now;
  })

-- `RehydrateWallet`
unfoldable pub rehydrate_wallet : Wallet → Result Wallet
rehydrate_wallet p = do
  fail_if (is_nil p.id || is_nil p.player_id || str_eq p.currency "") invalid_wallet
  fail_if (not (str_eq p.balance.currency p.currency)) currency_mismatch
  fail_if (is_negative p.balance) invalid_wallet
  fail_if (ltb_ℤ p.version (pos 1)) invalid_wallet
  ok p

-- `Debit`
unfoldable pub debit : Wallet → Money → Time → Result Wallet
debit w amount now = do
  fail_if (not (str_eq amount.currency w.currency)) currency_mismatch
  fail_if (not (is_positive amount)) amount_not_positive
  new_balance ← Money.sub w.balance amount
  fail_if (is_negative new_balance) insufficient_balance
  ok (record w { balance = new_balance; version = add64 w.version (pos 1); updated_at = now })

-- `Credit`
unfoldable pub credit : Wallet → Money → Time → Result Wallet
credit w amount now = do
  fail_if (not (str_eq amount.currency w.currency)) currency_mismatch
  fail_if (not (is_positive amount)) amount_not_positive
  new_balance ← Money.add w.balance amount
  ok (record w { balance = new_balance; version = add64 w.version (pos 1); updated_at = now })

-- A wallet that the constructors accept, with values that the types of its fields hold.
pub record IsValid (w : Wallet) : Type 0 where
  pub has_id : w.id ≢ nil_id
  pub has_player : w.player_id ≢ nil_id
  pub has_currency : w.currency ≢ ""
  pub same_currency : w.balance.currency ≡ w.currency
  pub balance_int64 : IsInt64 w.balance.minor_units
  pub balance_nonneg : pos 0 ≤ℤ w.balance.minor_units
  pub version_int64 : IsInt64 w.version
  pub version_pos : pos 1 ≤ℤ w.version
