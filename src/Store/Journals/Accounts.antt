-- ===== src/Store/Journals/Accounts.antt =====
-- internal/postgres/journal_repo.go: the sum of the entries of one wallet's account, as movements of
-- internal/domain/journal are added.
use jungle.Base.{
  ◌≡◌, ◌++◌, List, [], ◌∷◌, refl, Bool, true, false, if◌then◌else◌, inl, inr, Bool-cases,
}
use jungle.Values.{Uuid}
use jungle.Int.{ℤ, pos, ◌+ℤ◌, ◌-ℤ◌, int_laws}
use jungle.Journal.{Account, Entry, MovementParams, account_eq, wallet_account, entries_of}
use jungle.Store.Select.{keep}
use jungle.Store.Journals.{net, signed}

-- The sum that `AccountBalance` computes for the account of a wallet.
abbrev pub is_of : Uuid → Entry → Bool
is_of id e = account_eq e.account (wallet_account id)

abbrev pub wallet_net : Uuid → List Entry → ℤ
wallet_net id es = net (keep (is_of id) es)

-- What one entry adds to it.
abbrev share : Uuid → Entry → ℤ
share id e = if is_of id e then signed e.direction e.amount.minor_units else pos 0

wallet_net-cons :
    (id : Uuid) (e : Entry) (es : List Entry)
    → wallet_net id (e ∷ es) ≡ share id e +ℤ wallet_net id es
unfolding net keep
wallet_net-cons id e es = elim (Bool-cases (is_of id e)) [
  | inl own ↦ rw own refl
  | inr foreign ↦ rw foreign (omega int_laws)
]

pub wallet_net-append :
    (id : Uuid) (xs ys : List Entry)
    → wallet_net id (xs ++ ys) ≡ wallet_net id xs +ℤ wallet_net id ys
unfolding net keep
wallet_net-append id [] ys = omega int_laws
wallet_net-append id (x ∷ xs) ys =
    rw (wallet_net-cons id x (xs ++ ys), wallet_net-cons id x xs, wallet_net-append id xs ys)
      (omega int_laws)

-- What an account that a movement credits or debits gains or loses.
abbrev pub part : Uuid → Account → ℤ → ℤ
part id account amount = if account_eq account (wallet_account id) then amount else pos 0

loss : (b : Bool) (n : ℤ) → (if b then pos 0 -ℤ n else pos 0) ≡ pos 0 -ℤ (if b then n else pos 0)
loss true n = refl
loss false n = omega int_laws

pub wallet_net-entries_of :
    (id debit_id credit_id : Uuid) (p : MovementParams)
    → wallet_net id (entries_of debit_id credit_id p)
      ≡ part id p.to p.amount.minor_units -ℤ part id p.from p.amount.minor_units
unfolding net keep
wallet_net-entries_of id debit_id credit_id p =
    rw
      (
        wallet_net-cons id _ _,
        wallet_net-cons id _ [],
        loss (account_eq p.from (wallet_account id)) p.amount.minor_units,
      )
      (omega int_laws)
