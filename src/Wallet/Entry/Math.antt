-- ===== src/Wallet/Entry/Math.antt =====
-- internal/domain/wallet/ledger_entry.go: the balances of a ledger entry agree with its direction.
use jungle.Base.{not, ◌≡◌, ◌↔◌, refl, arith, eq_iff}
use jungle.Int.{◌-ℤ◌, +ℤ_of_-ℤ, ℤ, pos, ◌≤ℤ◌, ◌+ℤ◌}
use jungle.Result.{fail_if, ◌>>=◌, ◌>>◌, Result, ok, err, ledger_invariant}
use jungle.Money
use jungle.Money.{Money}
use jungle.Money.Arithmetic.{IsMoney, equal_iff, sub_exact, add_exact}
use jungle.Money.Overflow.Exact.{fits-IsInt64}
use jungle.Wallet.Entry.{
  WalletLedgerEntry, NewEntryParams, LedgerDirection, debit, credit, other, apply_direction,
  new_ledger_entry, rehydrate_ledger_entry,
}

-- The entry's signed effect is what its balances differ by.
abbrev pub Balances : LedgerDirection → ℤ → ℤ → ℤ → Type 0
Balances debit before amount after = before ≡ after +ℤ amount
Balances credit before amount after = after ≡ before +ℤ amount
Balances (other s) before amount after = ⊥

-- The test behind the computed balance.
accept_iff :
    (r : Result Money) (p e : WalletLedgerEntry)
    → ((do
      expected ← r
      fail_if (not (Money.equal expected p.balance_after)) ledger_invariant
      ok p)
        ≡ ok e)
      ↔ ((e ≡ p) × (r ≡ ok p.balance_after))
accept_iff (ok m) p e = ground (arith, equal_iff m p.balance_after)
accept_iff (err x) p e = ground arith

-- `RehydrateWalletLedgerEntry` accepts exactly the entries whose stored balance is the one that the
-- direction computes, and returns them as they are.
pub rehydrate_ledger_entry_iff :
    (p e : WalletLedgerEntry)
    → (rehydrate_ledger_entry p ≡ ok e)
      ↔ ((e ≡ p) × (apply_direction p.balance_before p.amount p.direction ≡ ok p.balance_after))
unfolding rehydrate_ledger_entry
rehydrate_ledger_entry_iff p e =
    accept_iff (apply_direction p.balance_before p.amount p.direction) p e

-- What `NewWalletLedgerEntry` has checked and computed.
pub new_ledger_entry_facts :
    (p : NewEntryParams) (e : WalletLedgerEntry)
    → new_ledger_entry p ≡ ok e
    → (apply_direction e.balance_before e.amount e.direction ≡ ok e.balance_after)
      × (e.amount ≡ p.amount)
      × (e.direction ≡ p.direction)
      × (e.balance_before ≡ p.balance_before)
      × (e.wallet_id ≡ p.wallet_id)
      × (e.transaction_id ≡ p.transaction_id)
      × (pos 1 ≤ℤ p.amount.minor_units)
unfolding new_ledger_entry
new_ledger_entry_facts p e h = ground arith

-- An entry that `NewWalletLedgerEntry` makes is read back unchanged.
rehydrate-new_ledger_entry :
    (p : NewEntryParams) (e : WalletLedgerEntry)
    → new_ledger_entry p ≡ ok e
    → rehydrate_ledger_entry e ≡ ok e
rehydrate-new_ledger_entry p e h =
    (rehydrate_ledger_entry_iff e e).1 (refl, (new_ledger_entry_facts p e h).0)

-- Where a direction computes a balance from two int64 amounts, the balances before and after differ
-- by the amount in that direction, the three have one currency, and the new one is an int64.
pub apply_direction-Balances :
    (d : LedgerDirection) (before amount after : Money)
    → IsMoney before
    → IsMoney amount
    → apply_direction before amount d ≡ ok after
    → Balances d before.minor_units amount.minor_units after.minor_units
      × (before.currency ≡ amount.currency)
      × (after.currency ≡ before.currency)
      × IsMoney after
unfolding apply_direction
apply_direction-Balances debit before amount after hb ha h =
    let difference = before.minor_units -ℤ amount.minor_units in
    ground (
      arith,
      sub_exact before amount hb ha,
      eq_iff before.currency amount.currency,
      +ℤ_of_-ℤ before.minor_units amount.minor_units,
      fits-IsInt64 difference,
    )
apply_direction-Balances credit before amount after hb ha h =
    let sum = before.minor_units +ℤ amount.minor_units in
    ground (
      arith,
      add_exact before amount hb ha,
      eq_iff before.currency amount.currency,
      fits-IsInt64 sum,
    )
apply_direction-Balances (other s) before amount after hb ha h = cc
