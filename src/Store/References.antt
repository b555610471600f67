-- ===== src/Store/References.antt =====
-- internal/postgres/transaction_repo.go: `ClaimPendingReference`, `RecordReferenceAttempt` and
-- `CountPendingReference`. No other instance holds a row lock, so `SKIP LOCKED` skips no row.
pub mod Writes
use jungle.Base.{ℕ, Bool, true, false, not, ◌&&◌, List, [], ◌∷◌, leb, if◌then◌else◌, length}
use jungle.Values.{Uuid, Time}
use jungle.Wagertx.{WagerTransaction}
use jungle.Wagertx.Constants.{Status}
use jungle.Result.{Result, ok, err, infrastructure}
use jungle.Store.Tables.{TransactionRow}
use jungle.Store.Action.{Action, lift, gets, modify, fail_if, call, ◌>>=◌, ◌>>◌}
use jungle.Store.Transactions.{to_domain, has_id}
use jungle.Store.Select.{select, keep}

-- `PendingReferenceRecord` of internal/app/ports.go
pub record PendingReferenceRecord : Type 0 where
  pub transaction : WagerTransaction
  pub attempts : ℕ
  pub first_seen_at : Time

abbrev pub is_awaiting : Status → Bool
is_awaiting Status.pending_reference = true
is_awaiting _ = false

abbrev pub is_due : Time → TransactionRow → Bool
is_due now r = is_awaiting r.status && leb r.reference_next_attempt_at now

-- `ORDER BY`
abbrev pub is_first : TransactionRow → TransactionRow → Bool
is_first r r' = leb r.reference_next_attempt_at r'.reference_next_attempt_at

abbrev record_of : TransactionRow → Result WagerTransaction → Result PendingReferenceRecord
record_of r (err e) = err e
record_of r (ok t) = ok (record {
  transaction = t;
  attempts = r.reference_attempts;
  first_seen_at = r.reference_first_seen_at;
})

abbrev pub appended :
    Result PendingReferenceRecord
    → Result (List PendingReferenceRecord)
    → Result (List PendingReferenceRecord)
appended (err e) rest = err e
appended (ok first) (err e) = err e
appended (ok first) (ok others) = ok (first ∷ others)

-- The loop over the rows, which the first row that is no transaction ends.
unfoldable pub pending_records : List TransactionRow → Result (List PendingReferenceRecord)
pending_records [] = ok []
pending_records (r ∷ rows) = appended (record_of r (to_domain r)) (pending_records rows)

-- `ClaimPendingReference`
unfoldable pub claim_pending_reference : ℕ → Time → Action (List PendingReferenceRecord)
claim_pending_reference limit now = do
  call
  rows ← gets (λ db. db.transactions)
  lift (pending_records (select (is_due now) is_first limit rows))

-- `CountPendingReference`
unfoldable pub count_pending_reference : Action ℕ
count_pending_reference = do
  call
  gets (λ db. length (keep (λ r. is_awaiting r.status) db.transactions))

abbrev attempted : ℕ → Time → TransactionRow → TransactionRow
attempted attempts next r = record r {
  reference_attempts = attempts;
  reference_next_attempt_at = next;
}

-- The rows after the `UPDATE` of `RecordReferenceAttempt`.
unfoldable pub reschedule_rows : Uuid → ℕ → Time → List TransactionRow → List TransactionRow
reschedule_rows id attempts next [] = []
reschedule_rows id attempts next (r ∷ rows) =
    (if has_id id r && is_awaiting r.status then attempted attempts next r else r)
    ∷ reschedule_rows id attempts next rows

-- The greatest value of the column type INT.
abbrev pub max_int4 : ℕ
max_int4 = 2147483647

-- `RecordReferenceAttempt`
unfoldable pub record_reference_attempt : Uuid → ℕ → Time → Action (Unit {0})
record_reference_attempt id attempts next = do
  call
  fail_if (not (leb attempts max_int4)) infrastructure
  modify (λ db. record db { transactions = reschedule_rows id attempts next db.transactions })
