-- ===== src/Wallet/Entry.antt =====
-- internal/domain/wallet/ledger_entry.go: one line of a wallet's ledger.
pub mod Math
use jungle.Base.{ℕ, String, Bool, not, ◌||◌}
use jungle.Values.{Uuid, Time, is_nil, is_zero_time}
use jungle.Money
use jungle.Money.{Money, is_positive}
use jungle.Result.{
  Result, ok, err, ◌>>=◌, ◌>>◌, fail_if, invalid_ledger_entry, invalid_direction, ledger_invariant,
}

-- `type LedgerDirection string`: the two values that the program names, or another text.
pub data LedgerDirection : Type 0 where
  debit credit : LedgerDirection
  other : String → LedgerDirection

-- `WalletLedgerEntry`; `RehydrateWalletLedgerEntryParams` has the same fields.
pub record WalletLedgerEntry : Type 0 where
  pub id : Uuid
  pub wallet_id : Uuid
  pub transaction_id : Uuid
  pub direction : LedgerDirection
  pub amount : Money
  pub balance_before : Money
  pub balance_after : Money
  pub created_at : Time

-- `NewWalletLedgerEntryParams`
pub record NewEntryParams : Type 0 where
  pub id : Uuid
  pub wallet_id : Uuid
  pub transaction_id : Uuid
  pub direction : LedgerDirection
  pub amount : Money
  pub balance_before : Money
  pub now : Time

-- `applyDirection`
unfoldable pub apply_direction : Money → Money → LedgerDirection → Result Money
apply_direction before amount debit = Money.sub before amount
apply_direction before amount credit = Money.add before amount
apply_direction before amount (other s) = err invalid_direction

-- `NewWalletLedgerEntry`
unfoldable pub new_ledger_entry : NewEntryParams → Result WalletLedgerEntry
new_ledger_entry p = do
  fail_if (is_nil p.id || is_nil p.wallet_id || is_nil p.transaction_id) invalid_ledger_entry
  fail_if (not (is_positive p.amount)) invalid_ledger_entry
  fail_if (is_zero_time p.now) invalid_ledger_entry
  balance_after ← apply_direction p.balance_before p.amount p.direction
  ok (record {
    id = p.id;
    wallet_id = p.wallet_id;
    transaction_id = p.transaction_id;
    direction = p.direction;
    amount = p.amount;
    balance_before = p.balance_before;
    balance_after = balance_after;
    created_at = p.now;
  })

-- `RehydrateWalletLedgerEntry`
unfoldable pub rehydrate_ledger_entry : WalletLedgerEntry → Result WalletLedgerEntry
rehydrate_ledger_entry p = do
  expected ← apply_direction p.balance_before p.amount p.direction
  fail_if (not (Money.equal expected p.balance_after)) ledger_invariant
  ok p
