-- ===== src/Store/Reconciled/Opening.antt =====
-- internal/postgres: a new wallet among reconciled tables.
use jungle.Base.{
  ap, ◌≡◌, refl, ◌++◌, [], ◌∷◌, List, some, none, arith, true, false, ◌==◌, if◌then◌else◌, inl, inr,
  Bool-cases, Option-cases, ==_iff,
}
use jungle.Values.{Uuid}
use jungle.Int.{ℤ, pos, ◌+ℤ◌, ◌-ℤ◌, int_laws, pos_part, neg_part}
use jungle.Int64.{IsInt64}
use jungle.Store.Tables.{Db, WalletRow}
use jungle.Store.Wallets.{find_wallet}
use jungle.Store.Logs.{credits, debits}
use jungle.Store.Journals.{net}
use jungle.Store.Reconciled.{IsReconciled, HaveInt64Amounts, AccountsAgree}

find_wallet-append :
    (j : Uuid) (rows : List WalletRow) (r : WalletRow)
    → find_wallet j rows ≡ none
    → find_wallet j (rows ++ r ∷ []) ≡ (if r.id == j then some r else none)
unfolding find_wallet
find_wallet-append j [] r h = refl
find_wallet-append j (x ∷ rows) r h = ground (arith, find_wallet-append j rows r)

find_wallet-append_found :
    (j : Uuid) (rows : List WalletRow) (r x : WalletRow)
    → find_wallet j rows ≡ some x
    → find_wallet j (rows ++ r ∷ []) ≡ some x
unfolding find_wallet
find_wallet-append_found j [] r x h = cc
find_wallet-append_found j (y ∷ rows) r x h = ground (arith, find_wallet-append_found j rows r x)

-- What the opening adds to the credits of a wallet.
abbrev pub opening_of : WalletRow → Uuid → ℤ
opening_of row id = if row.id == id then row.balance_minor_units else pos 0

module _ (before after : Db) (row : WalletRow) (inv : IsReconciled before)
    (fresh : find_wallet row.id before.wallets ≡ none)
    (ws : after.wallets ≡ before.wallets ++ row ∷ []) (int : IsInt64 row.balance_minor_units)
    (cs : (id : Uuid) → credits id after.ledger ≡ credits id before.ledger +ℤ opening_of row id)
    (ds : (id : Uuid) → debits id after.ledger ≡ debits id before.ledger)
    (amounts : HaveInt64Amounts after.transactions) (even : net after.journal ≡ pos 0)
    (agree : AccountsAgree after.journal after.ledger) where
  -- No wallet that was there has the new one's id.
  other :
      (id : Uuid) (x : WalletRow) → find_wallet id before.wallets ≡ some x → (row.id == id) ≡ false
  other id x found = elim (Bool-cases (row.id == id)) [
    | inl same ↦ absurd (cc (rw (← (==_iff row.id id).0 same) at found, fresh))
    | inr differs ↦ differs
  ]

  balances :
      (id : Uuid) (r : WalletRow)
      → find_wallet id after.wallets ≡ some r
      → IsInt64 r.balance_minor_units
        × (r.balance_minor_units ≡ credits id after.ledger -ℤ debits id after.ledger)
  balances id r h = elim (Option-cases (find_wallet id before.wallets)) [
    | inr (x, found) ↦
        let is : r ≡ x =
          ground (arith, find_wallet-append_found id before.wallets row x found, rw ws at h) in
        let (int₀, sum) = inv.0 id x found in
        rw (is, cs id, ds id, other id x found)
          (int₀, omega (int_laws, ap pos_part sum, ap neg_part sum))
    | inl absent ↦
        let new : (if row.id == id then some row else none) ≡ some r =
          rw (← find_wallet-append id before.wallets row absent, ← ws) h in
        let same : (row.id == id) ≡ true = ground (arith, new) in
        let is : r ≡ row = ground (arith, new, same) in
        let (no_credits, no_debits) = inv.1 id absent in
        rw (is, cs id, ds id, same, no_credits, no_debits) (int, omega int_laws)
  ]

  strays :
      (id : Uuid)
      → find_wallet id after.wallets ≡ none
      → (credits id after.ledger ≡ pos 0) × (debits id after.ledger ≡ pos 0)
  strays id h = elim (Option-cases (find_wallet id before.wallets)) [
    | inr (x, found) ↦
        absurd (cc (find_wallet-append_found id before.wallets row x found, rw ws at h))
    | inl absent ↦
        let new : (if row.id == id then some row else none) ≡ none =
          rw (← find_wallet-append id before.wallets row absent, ← ws) h in
        let differs : (row.id == id) ≡ false = ground (arith, new) in
        let (no_credits, no_debits) = inv.1 id absent in
        rw (cs id, ds id, differs, no_credits, no_debits) (omega int_laws, refl)
  ]

  -- A wallet with a new id opens with what is credited to it.
  pub IsReconciled-open : IsReconciled after
  IsReconciled-open = (balances, strays, amounts, even, agree)
