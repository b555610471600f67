-- ===== src/Examples/Wallets.antt =====
-- internal/domain/wallet on a concrete wallet.
use jungle.Base.{◌≡◌, refl, arith, not, str_eq, if◌then◌else◌}
use jungle.Int.{ℤ, pos, ◌-ℤ◌, ◌+ℤ◌, ltb_ℤ}
use jungle.Result.{ok, err, currency_mismatch, amount_not_positive, insufficient_balance, overflow}
use jungle.Money.{Currency, Money, from_minor_units, is_positive, add, sub}
use jungle.Money.Overflow.{add_int64, sub_int64}
use jungle.Money.Overflow.Exact.{fits}
use jungle.Int64.{add64}
use jungle.Wallet.{Wallet, NewWalletParams, IsValid, new_wallet, rehydrate_wallet, debit, credit}
use jungle.Wallet.Movement.{moved, debit_lem, credit_lem}
use jungle.Wallet.Construction.{
  new_wallet-IsValid, rehydrate_wallet-IsValid, IsValid-rehydrate_wallet,
}
use jungle.Wallet.Entry
use jungle.Wallet.Entry.{
  LedgerDirection, WalletLedgerEntry, NewEntryParams, new_ledger_entry, rehydrate_ledger_entry,
  apply_direction,
}

abbrev brl : Currency
brl = "BRL"

abbrev reais : ℤ → Money
reais n = from_minor_units n "BRL"

abbrev params : NewWalletParams
params = record {
  id = 1;
  player_id = 2;
  currency = "BRL";
  initial_balance = reais (pos 500);
  now = 9;
}

abbrev account : Wallet
account = record {
  id = 1;
  player_id = 2;
  currency = "BRL";
  balance = reais (pos 500);
  version = pos 1;
  created_at = 9;
  updated_at = 9;
}

new_wallet-account : new_wallet params ≡ ok account
unfolding new_wallet
new_wallet-account = refl

account-IsValid : IsValid account
account-IsValid = new_wallet-IsValid params account (omega arith) new_wallet-account

rehydrate_wallet-IsValid_example : rehydrate_wallet account ≡ ok account
rehydrate_wallet-IsValid_example = rehydrate_wallet-IsValid account account-IsValid

rehydrate-account : rehydrate_wallet account ≡ ok account
unfolding rehydrate_wallet
rehydrate-account = refl

IsValid-rehydrate_wallet_example : (account ≡ account) × IsValid account
IsValid-rehydrate_wallet_example =
    IsValid-rehydrate_wallet account account (omega arith) (omega arith) rehydrate-account

debit_lem_example : debit account (reais (pos 200)) 10 ≡ (
    if not (str_eq "BRL" "BRL")
    then err currency_mismatch
    else if not (is_positive (reais (pos 200)))
    then err amount_not_positive
    else if ltb_ℤ (pos 500) (pos 200)
    then err insufficient_balance
    else ok (moved account (pos 500 -ℤ pos 200) 10))
debit_lem_example = debit_lem account (reais (pos 200)) 10 account-IsValid (omega arith)

credit_lem_example : credit account (reais (pos 200)) 10 ≡ (
    if not (str_eq "BRL" "BRL")
    then err currency_mismatch
    else if not (is_positive (reais (pos 200)))
    then err amount_not_positive
    else if fits (pos 500 +ℤ pos 200)
    then ok (moved account (pos 500 +ℤ pos 200) 10)
    else err overflow)
credit_lem_example = credit_lem account (reais (pos 200)) 10 account-IsValid (omega arith)

abbrev after_debit : Wallet
after_debit = moved account (pos 300) 10

abbrev after_credit : Wallet
after_credit = moved account (pos 700) 10

debit-account : debit account (reais (pos 200)) 10 ≡ ok after_debit
unfolding debit sub sub_int64 jungle.Money.Overflow.negate_int64 add_int64 jungle.Int64.neg64
    jungle.Int64.wrap64 ◌-ℤ◌ add64 ◌+ℤ◌
debit-account = refl

credit-account : credit account (reais (pos 200)) 10 ≡ ok after_credit
unfolding credit add add_int64 add64 jungle.Int64.wrap64 ◌+ℤ◌
credit-account = refl

abbrev entry : WalletLedgerEntry
entry = record {
  id = 5;
  wallet_id = 1;
  transaction_id = 7;
  direction = Entry.debit;
  amount = reais (pos 200);
  balance_before = reais (pos 500);
  balance_after = reais (pos 300);
  created_at = 10;
}

abbrev entry_params : NewEntryParams
entry_params = record {
  id = 5;
  wallet_id = 1;
  transaction_id = 7;
  direction = Entry.debit;
  amount = reais (pos 200);
  balance_before = reais (pos 500);
  now = 10;
}

new_ledger_entry-entry : new_ledger_entry entry_params ≡ ok entry
unfolding new_ledger_entry apply_direction sub sub_int64 jungle.Money.Overflow.negate_int64
    add_int64 jungle.Int64.neg64 jungle.Int64.wrap64 ◌-ℤ◌ add64 ◌+ℤ◌
new_ledger_entry-entry = refl

apply_direction-entry :
    apply_direction (reais (pos 500)) (reais (pos 200)) Entry.debit ≡ ok (reais (pos 300))
unfolding apply_direction sub sub_int64 jungle.Money.Overflow.negate_int64 add_int64
    jungle.Int64.neg64 jungle.Int64.wrap64 ◌-ℤ◌ add64 ◌+ℤ◌
apply_direction-entry = refl
