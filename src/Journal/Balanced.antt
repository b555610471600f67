-- ===== src/Journal/Balanced.antt =====
-- internal/domain/journal/journal.go: movements balance, alone and together.
use jungle.Base.{◌≡◌, refl, true, false, ◌++◌, List, [], ◌∷◌, arith, eq_iff, ◌↔◌}
use jungle.Values.{Uuid}
use jungle.Int.{ℤ, pos, negsuc, ◌≤ℤ◌, ◌+ℤ◌, ◌-ℤ◌}
use jungle.Int64.{IsInt64, add64, neg64, wrap64}
use jungle.Result.{ok}
use jungle.Money.Arithmetic.{IsMoney}
use jungle.Journal.{
  Entry, MovementParams, Account, provider_account, entries_of, new_movement, signed_minor_units,
  balance_from, balance, assert_balanced, account_eq,
}

-- Taking an amount away and adding it again, in wrapping arithmetic.
there_and_back :
    (total a : ℤ) → IsInt64 total → IsInt64 a → pos 1 ≤ℤ a → add64 (add64 total (neg64 a)) a ≡ total
unfolding add64 neg64 wrap64 ◌+ℤ◌ ◌-ℤ◌
there_and_back (pos t) (pos a) ht ha p = ground arith
there_and_back (negsuc t) (pos a) ht ha p = ground arith
there_and_back t (negsuc a) ht ha p = absurd (omega arith)

pub new_movement_facts :
    (debit_id credit_id : Uuid) (p : MovementParams) (es : List Entry)
    → new_movement debit_id credit_id p ≡ ok es
    → (es ≡ entries_of debit_id credit_id p)
      × (account_eq p.from p.to ≡ false)
      × (pos 1 ≤ℤ p.amount.minor_units)
unfolding new_movement
new_movement_facts debit_id credit_id p es h = ground arith

movement-balance :
    (debit_id credit_id : Uuid) (p : MovementParams) (total : ℤ)
    → IsInt64 total
    → IsMoney p.amount
    → pos 1 ≤ℤ p.amount.minor_units
    → balance_from total (entries_of debit_id credit_id p) ≡ total
unfolding balance_from
movement-balance debit_id credit_id p total ht ha h =
    there_and_back total p.amount.minor_units ht ha h

balance_from-append :
    (total : ℤ) (xs ys : List Entry)
    → balance_from total (xs ++ ys) ≡ balance_from (balance_from total xs) ys
unfolding balance_from
balance_from-append total [] ys = refl
balance_from-append total (x ∷ xs) ys =
    balance_from-append (add64 total (signed_minor_units x)) xs ys

-- A journal that was written movement by movement.
pub data Movements : List Entry → Type 0 where
  start : Movements []
  record_next :
      {es : List Entry} (debit_id credit_id : Uuid) (p : MovementParams) (new : List Entry)
      → Movements es
      → IsMoney p.amount
      → new_movement debit_id credit_id p ≡ ok new
      → Movements (es ++ new)

-- A journal that is made of movements alone balances: its sum, in wrapping arithmetic, is zero.
pub Movements-balance : {es : List Entry} → Movements es → balance es ≡ pos 0
unfolding balance
Movements-balance start = refl
Movements-balance (record_next {es = es} d c p new ms m h) =
    let (e, _, positive) = new_movement_facts d c p new h in
    rw (balance_from-append, Movements-balance ms, e)
      (movement-balance d c p (pos 0) (omega arith) m positive)

-- The entries of one movement pass `AssertBalanced`.
assert_balanced-new_movement :
    (debit_id credit_id : Uuid) (p : MovementParams) (es : List Entry)
    → IsMoney p.amount
    → new_movement debit_id credit_id p ≡ ok es
    → assert_balanced es ≡ ok tt
unfolding assert_balanced
assert_balanced-new_movement d c p es m h =
    let (e, _, positive) = new_movement_facts d c p es h in
    rw e (ground (arith, movement-balance d c p (pos 0) (omega arith) m positive))

-- `==` on accounts.
pub account_eq_iff : (a b : Account) → (account_eq a b ≡ true) ↔ (a ≡ b)
unfolding account_eq
account_eq_iff (provider_account a) (provider_account b) = ground (arith, eq_iff a b)
account_eq_iff (Account.other a) (Account.other b) = ground (arith, eq_iff a b)
account_eq_iff a b = ground arith
