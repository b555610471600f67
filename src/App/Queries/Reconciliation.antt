-- ===== src/App/Queries/Reconciliation.antt =====
-- internal/app/queries.go: a reconciliation finds the balances of reconciled tables consistent.
use jungle.Base.{◌≡◌, refl, arith, true, false, [], some, ◌&&◌, eq_refl}
use jungle.Values.{Uuid}
use jungle.Int.{ℤ, pos, negsuc, ◌-ℤ◌}
use jungle.Int64.{IsInt64, sub64}
use jungle.Int64.Laws.{wrap64_id}
use jungle.Result.{ok}
use jungle.Money
use jungle.Money.{Money, from_minor_units, is_negative, is_zero}
use jungle.Money.Arithmetic.{IsMoney, sub_exact}
use jungle.Wallet.{Wallet, rehydrate_wallet}
use jungle.Store.Tables.{WalletRow}
use jungle.Store.Action.{World, within, ◌>>=◌}
use jungle.Store.Action.Laws.{call-quiet}
use jungle.Store.Wallets
use jungle.Store.Wallets.{find_wallet, wallet_of}
use jungle.Store.Logs.{credits, debits, entries, is_int64, totals}
use jungle.Store.Reconciled.{IsReconciled}
use jungle.App.Identity.{Identity, may_use_wallet_operations}
use jungle.App.Queries.{result_of, compare_balances, reconcile}

rehydrated : (p w : Wallet) → rehydrate_wallet p ≡ ok w → (w ≡ p) × (is_negative p.balance ≡ false)
unfolding rehydrate_wallet
rehydrated p w h = ground arith

nothing_left : (n : ℤ) → n -ℤ n ≡ pos 0
unfolding ◌-ℤ◌
nothing_left (pos n) = ground arith
nothing_left (negsuc n) = ground arith

-- An amount that is not negative, less itself.
sub_self :
    (m : Money)
    → IsMoney m
    → is_negative m ≡ false
    → Money.sub m m ≡ ok (from_minor_units (pos 0) m.currency)
sub_self m int nonneg =
    ground (arith, sub_exact m m int int, nothing_left m.minor_units, eq_refl m.currency)

calculated_exact : (c d b : ℤ) → IsInt64 b → b ≡ c -ℤ d → sub64 c d ≡ b
unfolding sub64
calculated_exact c d b int h = rw (← h) (wrap64_id b int)

-- The comparison, where every read succeeds.
compare_balances-reads :
    (id : Uuid) (s : World) (r : WalletRow) (w : Wallet) (difference : Money)
    → s.faults ≡ []
    → find_wallet id s.db.wallets ≡ some r
    → rehydrate_wallet (wallet_of r) ≡ ok w
    → (is_int64 (credits id s.db.ledger) && is_int64 (debits id s.db.ledger)) ≡ true
    → Money.sub w.balance
        (from_minor_units (sub64 (credits id s.db.ledger) (debits id s.db.ledger)) w.currency)
      ≡ ok difference
    → compare_balances id s ≡ (
      ok (
          result_of id w.balance
            (from_minor_units (sub64 (credits id s.db.ledger) (debits id s.db.ledger)) w.currency)
            difference
            (entries id s.db.ledger)),
      s,
    )
unfolding compare_balances Wallets.get_wallet totals ◌>>=◌
compare_balances-reads id s r w difference quiet found read fit left =
    rw (call-quiet s quiet, found, read, call-quiet s quiet, fit, left) refl

-- The balance that is calculated for a stored wallet of reconciled tables.
calculated_balance-stored :
    (id : Uuid) (s : World) (r : WalletRow) (w : Wallet)
    → IsReconciled s.db
    → find_wallet id s.db.wallets ≡ some r
    → w ≡ wallet_of r
    → (from_minor_units (sub64 (credits id s.db.ledger) (debits id s.db.ledger)) w.currency
        ≡ w.balance)
      × IsMoney w.balance
calculated_balance-stored id s r w inv found same =
    let (int, sums) = inv.0 id r found in
    rw
      (
        same,
        calculated_exact (credits id s.db.ledger) (debits id s.db.ledger) r.balance_minor_units int
            sums,
      )
      (refl, int)

compare_balances-IsReconciled :
    (id : Uuid) (s : World) (r : WalletRow) (w : Wallet)
    → IsReconciled s.db
    → s.faults ≡ []
    → find_wallet id s.db.wallets ≡ some r
    → rehydrate_wallet (wallet_of r) ≡ ok w
    → (is_int64 (credits id s.db.ledger) && is_int64 (debits id s.db.ledger)) ≡ true
    → compare_balances id s ≡ (
      ok (
          result_of id w.balance w.balance
            (from_minor_units (pos 0) w.currency)
            (entries id s.db.ledger)),
      s,
    )
compare_balances-IsReconciled id s r w inv quiet found read fit =
    let (same, nonneg) = rehydrated (wallet_of r) w read in
    let (calculated, int) = calculated_balance-stored id s r w inv found same in
    let currency : w.balance.currency ≡ w.currency = rw same refl in
    let left : Money.sub w.balance w.balance ≡ ok (from_minor_units (pos 0) w.currency) =
      rw (← currency) (sub_self w.balance int (rw same nonneg)) in
    rw
      (
        compare_balances-reads id s r w (from_minor_units (pos 0) w.currency) quiet found read fit
            (rw calculated left),
        calculated,
      )
      refl

-- On reconciled tables, for an internal caller and a stored wallet that can be read, whose sums are
-- int64, and with a database that does not fail, a reconciliation answers that the balance is
-- consistent: the calculated balance is the stored one, and the difference is zero.
pub reconcile-IsReconciled :
    (i : Identity) (id : Uuid) (s : World) (r : WalletRow) (w : Wallet)
    → may_use_wallet_operations i ≡ true
    → IsReconciled s.db
    → s.faults ≡ []
    → find_wallet id s.db.wallets ≡ some r
    → rehydrate_wallet (wallet_of r) ≡ ok w
    → (is_int64 (credits id s.db.ledger) && is_int64 (debits id s.db.ledger)) ≡ true
    → reconcile i id s ≡ (
      ok (record {
        wallet_id = id;
        stored_balance = w.balance;
        calculated_balance = w.balance;
        difference = from_minor_units (pos 0) w.currency;
        is_consistent = true;
        checked_entries = entries id s.db.ledger;
      }),
      s,
    )
unfolding reconcile within ◌>>=◌
reconcile-IsReconciled i id s r w allowed inv quiet found read fit =
    rw
      (
        allowed,
        call-quiet s quiet,
        compare_balances-IsReconciled id s r w inv quiet found read fit,
        call-quiet s quiet,
      )
      refl
