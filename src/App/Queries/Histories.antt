-- ===== src/App/Queries/Histories.antt =====
-- internal/app/queries.go: the queries only read.
use jungle.Base.{Bool, String, ℕ}
use jungle.Values.{Uuid}
use jungle.Int.{ℤ}
use jungle.Store.Tables.{LedgerRow}
use jungle.Store.Action.Histories.{History, Keeps, Keeps-read, Keeps-gets, Keeps-call}
use jungle.Store.Transactions.{has_id, has_identity}
use jungle.Store.Wallets
use jungle.Store.Effects.{get_wallet-db}
use jungle.Store.Logs.{totals}
use jungle.Store.Ledger.{Codec, page, page_rows}
use jungle.Store.Statements.{keeps_rules}
use jungle.App.Identity.{Identity}
use jungle.App.Decide.Histories.{scan_one-Keeps}
use jungle.App.Queries.{
  get_wallet, get_ledger, get_transaction, get_provider_transaction, compare_balances, reconcile,
}

ruleset read_rules = (keeps_rules, Keeps-gets, Keeps-call)

module _ {H : History} where
  wallet-Keeps : (id : Uuid) → Keeps H (Wallets.get_wallet id)
  wallet-Keeps id = Keeps-read (Wallets.get_wallet id) (get_wallet-db id)

  pub get_wallet-Keeps : (i : Identity) (id : Uuid) → Keeps H (get_wallet i id)
  unfolding get_wallet
  get_wallet-Keeps i id = search (read_rules, wallet-Keeps)

  page_rows-Keeps :
      (wallet : Uuid) (limit : ℕ) (test : LedgerRow → Bool) → Keeps H (page_rows wallet limit test)
  page_rows-Keeps wallet limit test = search (read_rules) depth 10

  page-Keeps :
      (codec : Codec) (wallet : Uuid) (cursor : String) (limit : ℕ)
      → Keeps H (page codec wallet cursor limit)
  unfolding page
  page-Keeps codec wallet cursor limit = search (read_rules, page_rows-Keeps) depth 10

  pub get_ledger-Keeps :
      (codec : Codec) (i : Identity) (wallet : Uuid) (cursor : String) (limit : ℤ)
      → Keeps H (get_ledger codec i wallet cursor limit)
  unfolding get_ledger
  get_ledger-Keeps codec i wallet cursor limit = search (read_rules, page-Keeps)

  pub get_transaction-Keeps : (i : Identity) (id : Uuid) → Keeps H (get_transaction i id)
  unfolding get_transaction
  get_transaction-Keeps i id = search (read_rules, scan_one-Keeps (has_id id))

  pub get_provider_transaction-Keeps :
      (i : Identity) (provider external : String)
      → Keeps H (get_provider_transaction i provider external)
  unfolding get_provider_transaction
  get_provider_transaction-Keeps i provider external =
      search (read_rules, scan_one-Keeps (has_identity provider external))

  totals-Keeps : (id : Uuid) → Keeps H (totals id)
  unfolding totals
  totals-Keeps id = search (read_rules) depth 10

  compare_balances-Keeps : (id : Uuid) → Keeps H (compare_balances id)
  unfolding compare_balances
  compare_balances-Keeps id = search (read_rules, wallet-Keeps, totals-Keeps) depth 10

  pub reconcile-Keeps : (i : Identity) (id : Uuid) → Keeps H (reconcile i id)
  unfolding reconcile
  reconcile-Keeps i id = search (read_rules, compare_balances-Keeps)
