-- ===== src/Store/Reconciled.antt =====
-- internal/postgres: the stored balance of a wallet against the totals of its ledger.
pub mod Opening
pub mod Accounts
use jungle.Base.{
  All, none, ap, ◌≡◌, ◌++◌, [], ◌∷◌, List, some, arith, Bool, true, false, ◌==◌, if◌then◌else◌, inl,
  inr, Bool-cases, ==_iff,
}
use jungle.Values.{Uuid}
use jungle.Int.{ℤ, pos_part, neg_part, pos, ◌+ℤ◌, ◌-ℤ◌, int_laws}
use jungle.Int64.{IsInt64}
use jungle.Wallet.Entry.{LedgerDirection, debit, credit}
use jungle.Wallet.Entry.Math.{Balances}
use jungle.Store.Tables.{Db, WalletRow, LedgerRow, TransactionRow}
use jungle.Store.Wallets.{find_wallet, replace_wallet}
use jungle.Store.Logs.{credits, debits, counted, is_credit, is_debit}
use jungle.Store.Journals.{net}
use jungle.Store.Journals.Accounts.{wallet_net}
use jungle.Journal

-- The amounts of the stored transactions are int64, as those of a BIGINT column.
abbrev pub HaveInt64Amounts : List TransactionRow → Type 0
HaveInt64Amounts = All (λ r. IsInt64 r.amount_minor_units)

-- The entries of each wallet's account in the journal sum to its credits less its debits.
abbrev pub AccountsAgree : List Journal.Entry → List LedgerRow → Type 0
AccountsAgree journal ledger =
    (id : Uuid) → wallet_net id journal ≡ credits id ledger -ℤ debits id ledger

-- Every stored wallet has an int64 balance, which is its credits less its debits, the ledger has no
-- amounts of any other wallet, the amounts of the transactions are int64, the journal sums to zero,
-- and its account for each wallet agrees with the ledger.
abbrev pub IsReconciled : Db → Type 0
IsReconciled db =
    ((id : Uuid) (r : WalletRow)
      → find_wallet id db.wallets ≡ some r
      → IsInt64 r.balance_minor_units
        × (r.balance_minor_units ≡ credits id db.ledger -ℤ debits id db.ledger))
    × ((id : Uuid)
        → find_wallet id db.wallets ≡ none
        → (credits id db.ledger ≡ pos 0) × (debits id db.ledger ≡ pos 0))
    × HaveInt64Amounts db.transactions
    × (net db.journal ≡ pos 0)
    × AccountsAgree db.journal db.ledger

pub credits-append :
    (id : Uuid) (rows : List LedgerRow) (r : LedgerRow)
    → credits id (rows ++ r ∷ []) ≡ credits id rows +ℤ counted is_credit id r
unfolding credits
credits-append id [] r = omega int_laws
credits-append id (x ∷ rows) r = rw (credits-append id rows r) (omega int_laws)

pub debits-append :
    (id : Uuid) (rows : List LedgerRow) (r : LedgerRow)
    → debits id (rows ++ r ∷ []) ≡ debits id rows +ℤ counted is_debit id r
unfolding debits
debits-append id [] r = omega int_laws
debits-append id (x ∷ rows) r = rw (debits-append id rows r) (omega int_laws)

pub find_wallet-id :
    (id : Uuid) (rows : List WalletRow) (r : WalletRow) → find_wallet id rows ≡ some r → r.id ≡ id
unfolding find_wallet
find_wallet-id id [] r h = cc
find_wallet-id id (x ∷ rows) r h = ground (arith, find_wallet-id id rows r)

pub find_wallet-replace_wallet :
    (j : Uuid) (new old : WalletRow) (rows : List WalletRow)
    → find_wallet new.id rows ≡ some old
    → find_wallet j (replace_wallet new rows)
      ≡ (if new.id == j then some new else find_wallet j rows)
unfolding find_wallet replace_wallet
find_wallet-replace_wallet j new old [] h = cc
find_wallet-replace_wallet j new old (x ∷ rows) h =
    ground (arith, find_wallet-replace_wallet j new old rows)

-- What an amount adds to one side of the ledger.
abbrev side : (LedgerDirection → Bool) → LedgerDirection → ℤ → ℤ
side is dir a = if is dir then a else pos 0

totals_shift :
    (b a b' c d : ℤ) (dir : LedgerDirection)
    → Balances dir b a b'
    → b ≡ c -ℤ d
    → b' ≡ (c +ℤ side is_credit dir a) -ℤ (d +ℤ side is_debit dir a)
totals_shift b a b' c d debit e h =
    omega (int_laws, ap pos_part e, ap neg_part e, ap pos_part h, ap neg_part h)
totals_shift b a b' c d credit e h =
    omega (int_laws, ap pos_part e, ap neg_part e, ap pos_part h, ap neg_part h)
totals_shift b a b' c d (LedgerDirection.other s) e h = elim e [ ]

nothing_added : (b c d : ℤ) → b ≡ c -ℤ d → b ≡ (c +ℤ pos 0) -ℤ (d +ℤ pos 0)
nothing_added b c d h = omega (int_laws, ap pos_part h, ap neg_part h)

-- An entry counts on neither side of another wallet.
uncounted :
    (is : LedgerDirection → Bool) (id : Uuid) (e : LedgerRow)
    → (e.wallet_id == id) ≡ false
    → counted is id e ≡ pos 0
uncounted is id e h = ground (arith, h)

counted_own :
    (is : LedgerDirection → Bool) (id : Uuid) (e : LedgerRow)
    → (e.wallet_id == id) ≡ true
    → counted is id e ≡ side is e.direction e.amount_minor_units
counted_own is id e h = ground (arith, h)

-- One movement: the row of a wallet gets a new balance, and the ledger an entry with the change.
pub IsReconciled-move :
    (before after : Db) (row new : WalletRow) (entry : LedgerRow)
    → IsReconciled before
    → find_wallet new.id before.wallets ≡ some row
    → after.wallets ≡ replace_wallet new before.wallets
    → after.ledger ≡ before.ledger ++ entry ∷ []
    → entry.wallet_id ≡ new.id
    → IsInt64 new.balance_minor_units
    → Balances entry.direction row.balance_minor_units entry.amount_minor_units
        new.balance_minor_units
    → HaveInt64Amounts after.transactions
    → net after.journal ≡ pos 0
    → AccountsAgree after.journal after.ledger
    → IsReconciled after
IsReconciled-move before after row new entry (inv, strays, _, _, _) found ws ls owner int math
      amounts even agree =
    (balances, unowned, amounts, even, agree)
  where
    balances :
        (id : Uuid) (r : WalletRow)
        → find_wallet id after.wallets ≡ some r
        → IsInt64 r.balance_minor_units
          × (r.balance_minor_units ≡ credits id after.ledger -ℤ debits id after.ledger)
    balances id r h =
        let looked : (if new.id == id then some new else find_wallet id before.wallets) ≡ some r =
          rw (← find_wallet-replace_wallet id new row before.wallets found, ← ws) h in
        elim (Bool-cases (new.id == id)) [
          | inl same ↦
              let (int₀, sum₀) = inv id row (rw (← (==_iff new.id id).0 same) found) in
              let is_new : r ≡ new = ground (arith, looked, same) in
              let own : (entry.wallet_id == id) ≡ true = rw owner same in
              rw
                (
                  is_new,
                  ls,
                  credits-append id before.ledger entry,
                  debits-append id before.ledger entry,
                  counted_own is_credit id entry own,
                  counted_own is_debit id entry own,
                )
                (
                  int,
                  totals_shift row.balance_minor_units entry.amount_minor_units
                      new.balance_minor_units (credits id before.ledger) (debits id before.ledger)
                      entry.direction math sum₀,
                )
          | inr other ↦
              let (int₀, sum₀) = inv id r (ground (arith, looked, other)) in
              let foreign : (entry.wallet_id == id) ≡ false = rw owner other in
              rw
                (
                  ls,
                  credits-append id before.ledger entry,
                  debits-append id before.ledger entry,
                  uncounted is_credit id entry foreign,
                  uncounted is_debit id entry foreign,
                )
                (
                  int₀,
                  nothing_added r.balance_minor_units (credits id before.ledger)
                      (debits id before.ledger) sum₀,
                )
        ]

    unowned :
        (id : Uuid)
        → find_wallet id after.wallets ≡ none
        → (credits id after.ledger ≡ pos 0) × (debits id after.ledger ≡ pos 0)
    unowned id h =
        let looked : (if new.id == id then some new else find_wallet id before.wallets) ≡ none =
          rw (← find_wallet-replace_wallet id new row before.wallets found, ← ws) h in
        let other : (entry.wallet_id == id) ≡ false = ground (arith, looked, owner) in
        let (no_credits, no_debits) = strays id (ground (arith, looked)) in
        rw
          (
            ls,
            credits-append id before.ledger entry,
            debits-append id before.ledger entry,
            uncounted is_credit id entry other,
            uncounted is_debit id entry other,
          )
          (
            omega (int_laws, ap pos_part no_credits, ap neg_part no_credits),
            omega (int_laws, ap pos_part no_debits, ap neg_part no_debits),
          )
