-- ===== src/App/Settle/Accounts.antt =====
-- internal/app/process_wager.go: the double entry of a booked movement moves the wallet's account in
-- the journal by what the ledger entry counts.
use jungle.Base.{◌≡◌, refl, ◌==◌, inl, inr, Bool-cases}
use jungle.Values.{Uuid, Time}
use jungle.Int.{ℤ, pos, ◌-ℤ◌, int_laws}
use jungle.Wallet.Entry.{LedgerDirection, debit, credit, other}
use jungle.Journal.{account_eq, entries_of}
use jungle.Wagertx.{WagerTransaction}
use jungle.Store.Tables.{LedgerRow}
use jungle.Store.Journals.Accounts.{wallet_net-entries_of}
use jungle.Store.Reconciled.Accounts.{IsMatched}
use jungle.Wallet.Entry.Math.{Balances}
use jungle.App.Settle.{movement_of}

none_left : (n : ℤ) → n -ℤ pos 0 ≡ n
none_left n = omega int_laws

-- A ledger entry of the transaction's wallet and amount is matched by the movement in its direction.
pub movement_of-IsMatched :
    (debit_id credit_id : Uuid) (t : WagerTransaction) (now : Time) (d : LedgerDirection)
    (entry : LedgerRow)
    → entry.wallet_id ≡ t.wallet_id
    → entry.amount_minor_units ≡ t.money.minor_units
    → entry.direction ≡ d
    → (b b' : ℤ) → Balances d b t.money.minor_units b'
    → IsMatched (entries_of debit_id credit_id (movement_of t d now)) entry
unfolding account_eq
movement_of-IsMatched debit_id credit_id t now debit entry owner amount dir b b' math id =
    rw (wallet_net-entries_of id debit_id credit_id (movement_of t debit now), owner, amount, dir)
      (elim (Bool-cases (t.wallet_id == id)) [
        | inl own ↦ rw own refl
        | inr foreign ↦ rw foreign refl
      ])
movement_of-IsMatched debit_id credit_id t now credit entry owner amount dir b b' math id =
    rw (wallet_net-entries_of id debit_id credit_id (movement_of t credit now), owner, amount, dir)
      (elim (Bool-cases (t.wallet_id == id)) [
        | inl own ↦ rw own refl
        | inr foreign ↦ rw foreign refl
      ])
movement_of-IsMatched debit_id credit_id t now (other s) entry owner amount dir b b' math id =
    elim math [ ]
