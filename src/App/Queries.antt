-- ===== src/App/Queries.antt =====
-- internal/app/queries.go: what may be read, and by whom. The pool's own reads see the tables as a
-- transaction's do.
pub mod Reconciliation
pub mod Histories
use jungle.Base.{ℕ, String, Bool, true, false, not, ◌||◌, ◌==◌, if◌then◌else◌, List}
use jungle.Values.{Uuid}
use jungle.Int.{ℤ, pos, pos_part, leb_ℤ, ltb_ℤ}
use jungle.Int64.{sub64}
use jungle.Money
use jungle.Money.{Money, from_minor_units, is_zero}
use jungle.Wallet.{Wallet}
use jungle.Wallet.Entry.{WalletLedgerEntry}
use jungle.Wagertx.{WagerTransaction}
use jungle.Result.{forbidden, not_found}
use jungle.Store.Action.{Action, pure, raise, lift, within, fail_if, ◌>>=◌, ◌>>◌}
use jungle.Store.Wallets
use jungle.Store.Transactions.{get_by_id, get_by_provider_external_id}
use jungle.Store.Logs.{totals}
use jungle.Store.Ledger.{Codec, page}
use jungle.App.Identity.{Identity, may_act_as_provider, may_use_wallet_operations}

-- `GetWallet`
unfoldable pub get_wallet : Identity → Uuid → Action Wallet
get_wallet i id = do fail_if (not (may_use_wallet_operations i)) forbidden; Wallets.get_wallet id

-- The limit that a page is read with.
abbrev pub page_limit : ℤ → ℕ
page_limit limit = if leb_ℤ limit (pos 0) || ltb_ℤ (pos 200) limit then 50 else pos_part limit

-- `GetLedger`; a `LedgerPage` is the pair of its fields.
unfoldable pub get_ledger :
    Codec → Identity → Uuid → String → ℤ → Action (List WalletLedgerEntry × String)
get_ledger codec i wallet cursor limit = do
  fail_if (not (may_use_wallet_operations i)) forbidden
  page codec wallet cursor (page_limit limit)

-- `GetTransaction`
unfoldable pub get_transaction : Identity → Uuid → Action WagerTransaction
get_transaction i id = do
  t ← get_by_id id
  fail_if (not (may_act_as_provider i t.provider_id)) not_found
  pure t

-- `GetProviderTransaction`
unfoldable pub get_provider_transaction : Identity → String → String → Action WagerTransaction
get_provider_transaction i provider external = do
  fail_if (not (may_act_as_provider i provider)) not_found
  get_by_provider_external_id provider external

-- `ReconcileResult`
pub record ReconcileResult : Type 0 where
  pub wallet_id : Uuid
  pub stored_balance : Money
  pub calculated_balance : Money
  pub difference : Money
  pub is_consistent : Bool
  pub checked_entries : ℕ

abbrev pub result_of : Uuid → Money → Money → Money → ℕ → ReconcileResult
result_of id stored calculated difference entries = record {
  wallet_id = id;
  stored_balance = stored;
  calculated_balance = calculated;
  difference = difference;
  is_consistent = is_zero difference;
  checked_entries = entries;
}

-- The function that `Reconcile` runs in the transaction.
unfoldable pub compare_balances : Uuid → Action ReconcileResult
compare_balances id = do
  w ← Wallets.get_wallet id
  sums ← totals id
  difference ← lift (Money.sub w.balance (from_minor_units (sub64 sums.0 sums.1) w.currency))
  pure
      (result_of id w.balance (from_minor_units (sub64 sums.0 sums.1) w.currency) difference sums.2)

-- `Reconcile`
unfoldable pub reconcile : Identity → Uuid → Action ReconcileResult
reconcile i id = do
  fail_if (not (may_use_wallet_operations i)) forbidden
  within (compare_balances id)
