-- ===== src/Store/Journals.antt =====
-- internal/postgres/journal_repo.go: `ByTransaction`, `GlobalImbalance` and `AccountBalance`. The
-- database adds exactly; a sum that is no int64 cannot be scanned, which is an error.
pub mod Sums
pub mod Accounts
use jungle.Base.{Bool, true, false, not, List, [], ◌∷◌, ◌==◌, leb, if◌then◌else◌}
use jungle.Values.{Uuid}
use jungle.Int.{ℤ, pos, ◌+ℤ◌, ◌-ℤ◌}
use jungle.Journal.{Entry, Direction, Account, account_eq, rehydrate}
use jungle.Result.{Result, ok, err, infrastructure}
use jungle.Store.Action.{Action, pure, gets, fail_if, call, lift, ◌>>=◌, ◌>>◌}
use jungle.Store.Logs.{is_int64}
use jungle.Store.Select.{keep, sort_by}

-- `CASE WHEN direction = 'CREDIT' THEN amount_minor_units ELSE -amount_minor_units END`
abbrev pub signed : Direction → ℤ → ℤ
signed Direction.credit a = a
signed _ a = pos 0 -ℤ a

-- The sum that both aggregates compute of the rows that they select.
unfoldable pub net : List Entry → ℤ
net [] = pos 0
net (e ∷ es) = signed e.direction e.amount.minor_units +ℤ net es

-- `GlobalImbalance`
unfoldable pub global_imbalance : Action ℤ
global_imbalance = do
  call
  rows ← gets (λ db. db.journal)
  fail_if (not (is_int64 (net rows))) infrastructure
  pure (net rows)

-- `AccountBalance`
unfoldable pub account_balance : Account → Action ℤ
account_balance account = do
  call
  rows ← gets (λ db. keep (λ e. account_eq e.account account) db.journal)
  fail_if (not (is_int64 (net rows))) infrastructure
  pure (net rows)

-- 'CREDIT' comes before 'DEBIT', the only two directions that the table's CHECK allows; entries of one
-- direction come in the order of their times.
abbrev not_after : Entry → Entry → Bool
not_after a b = go a.direction b.direction
  where
    go : Direction → Direction → Bool
    go Direction.credit Direction.credit = leb a.created_at b.created_at
    go Direction.credit _ = true
    go _ Direction.credit = false
    go _ _ = leb a.created_at b.created_at

abbrev appended : Result Entry → Result (List Entry) → Result (List Entry)
appended (err e) rest = err e
appended (ok first) (err e) = err e
appended (ok first) (ok others) = ok (first ∷ others)

-- The loop over the rows of `ByTransaction`.
unfoldable pub rehydrate_all : List Entry → Result (List Entry)
rehydrate_all [] = ok []
rehydrate_all (e ∷ es) = appended (rehydrate e) (rehydrate_all es)

-- `ByTransaction`
unfoldable pub by_transaction : Uuid → Action (List Entry)
by_transaction id = do
  call
  rows ← gets (λ db. sort_by not_after (keep (λ e. e.transaction_id == id) db.journal))
  lift (rehydrate_all rows)
