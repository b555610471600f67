-- ===== src/Journal.antt =====
-- internal/domain/journal/journal.go: double entry. An account is a text: `PlatformFunding`,
-- "WALLET:" with a wallet's id, "PROVIDER:" with a provider's id, or another; the texts of the
-- first three forms differ where their constructors or arguments do.
pub mod Balanced
use jungle.Base.{
  ℕ, String, Bool, true, false, not, ◌||◌, ◌&&◌, List, [], ◌∷◌, ◌==◌, str_eq, if◌then◌else◌,
}
use jungle.Values.{Uuid, Time, is_nil, is_zero_time}
use jungle.Int.{ℤ, pos, eqb_ℤ}
use jungle.Int64.{add64, neg64}
use jungle.Money.{Money, is_positive}
use jungle.Result.{
  Result, ok, err, ◌>>=◌, ◌>>◌, fail_if, invalid_entry, invalid_account, same_account, not_balanced,
}

pub data Account : Type 0 where
  platform_funding : Account
  wallet_account : Uuid → Account
  provider_account : String → Account
  other : String → Account

-- `a == ""`
abbrev pub is_no_account : Account → Bool
is_no_account (Account.other s) = str_eq s ""
is_no_account _ = false

-- `a == b`
unfoldable pub account_eq : Account → Account → Bool
account_eq platform_funding platform_funding = true
account_eq (wallet_account a) (wallet_account b) = a == b
account_eq (provider_account a) (provider_account b) = str_eq a b
account_eq (Account.other a) (Account.other b) = str_eq a b
account_eq _ _ = false

-- `type Direction string`
pub data Direction : Type 0 where
  debit credit : Direction
  other : String → Direction

-- `Entry`; `RehydrateParams` has the same fields.
pub record Entry : Type 0 where
  pub id : Uuid
  pub transaction_id : Uuid
  pub account : Account
  pub direction : Direction
  pub amount : Money
  pub created_at : Time

-- `MovementParams`
pub record MovementParams : Type 0 where
  pub transaction_id : Uuid
  pub from : Account
  pub to : Account
  pub amount : Money
  pub now : Time

-- The two entries that `NewMovement` returns; `debit_id` and `credit_id` are its `uuid.New()`.
abbrev pub entries_of : Uuid → Uuid → MovementParams → List Entry
entries_of debit_id credit_id p =
    record {
      id = debit_id;
      transaction_id = p.transaction_id;
      account = p.from;
      direction = debit;
      amount = p.amount;
      created_at = p.now;
    }
    ∷ record {
      id = credit_id;
      transaction_id = p.transaction_id;
      account = p.to;
      direction = credit;
      amount = p.amount;
      created_at = p.now;
    }
    ∷ []

-- `NewMovement`
unfoldable pub new_movement : Uuid → Uuid → MovementParams → Result (List Entry)
new_movement debit_id credit_id p = do
  fail_if (is_nil p.transaction_id) invalid_entry
  fail_if (is_no_account p.from || is_no_account p.to) invalid_account
  fail_if (account_eq p.from p.to) same_account
  fail_if (not (is_positive p.amount)) invalid_entry
  fail_if (is_zero_time p.now) invalid_entry
  ok (entries_of debit_id credit_id p)

abbrev pub is_direction : Direction → Bool
is_direction (Direction.other s) = false
is_direction _ = true

-- `Rehydrate`
unfoldable pub rehydrate : Entry → Result Entry
rehydrate p = do fail_if (not (is_direction p.direction)) invalid_entry; ok p

-- `e.direction == Debit`
abbrev pub is_debit : Direction → Bool
is_debit debit = true
is_debit _ = false

-- `SignedMinorUnits`
unfoldable pub signed_minor_units : Entry → ℤ
signed_minor_units e =
    if is_debit e.direction then neg64 e.amount.minor_units else e.amount.minor_units

-- The loop of `Balance`.
unfoldable pub balance_from : ℤ → List Entry → ℤ
unfolding signed_minor_units
balance_from total [] = total
balance_from total (e ∷ es) = balance_from (add64 total (signed_minor_units e)) es

-- `Balance`
unfoldable pub balance : List Entry → ℤ
unfolding balance_from
balance es = balance_from (pos 0) es

-- `AssertBalanced`
unfoldable pub assert_balanced : List Entry → Result (Unit {0})
unfolding balance
assert_balanced es = fail_if (not (eqb_ℤ (balance es) (pos 0))) not_balanced
