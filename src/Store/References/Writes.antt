-- ===== src/Store/References/Writes.antt =====
-- internal/postgres/transaction_repo.go: what `Update`, `RecordReferenceAttempt` and the reads of a
-- transaction that awaits its reference do to the tables.
use jungle.Base.{
  ◌≡◌, ◌∙◌, refl, arith, ℕ, Bool, true, ◌&&◌, Option, none, some, List, [], ◌∷◌, All, inl, inr,
  Bool-cases, Option-cases, ◌==◌,
}
use jungle.Values.{Uuid, Time}
use jungle.Int64.{IsInt64}
use jungle.Money.Arithmetic.{IsMoney}
use jungle.Money.{from_minor_units}
use jungle.Wagertx.{WagerTransaction, rehydrate}
use jungle.Result.{ok}
use jungle.Store.Tables.{TransactionRow}
use jungle.Store.Action.{World, call, ◌>>=◌}
use jungle.Store.Action.Laws.{call-db}
use jungle.Store.Transactions.{to_domain, find_first, has_id, or_not_found, scan_one, get_by_id}
use jungle.Store.TransactionWrites.{update_transaction, update_found, updated_row, replace_row}
use jungle.Store.References.{
  reschedule_rows, record_reference_attempt, is_awaiting, claim_pending_reference,
  count_pending_reference,
}
use jungle.Store.Reconciled.{HaveInt64Amounts}

find_first-All {ℓ} :
    (P : TransactionRow → Type ℓ) (test : TransactionRow → Bool) (rows : List TransactionRow)
    (r : TransactionRow)
    → All P rows
    → find_first test rows ≡ some r
    → (test r ≡ true) × P r
unfolding find_first
find_first-All P test [] r h found = absurd cc
find_first-All P test (x ∷ rows) r (p, h) found = elim (Bool-cases (test x)) [
  | inl passes ↦
      let same : x ≡ r = ground (arith, found, passes) in (rw same at passes, rw same at p)
  | inr fails ↦ find_first-All P test rows r h (ground (arith, found, fails))
]

to_domain-money :
    (r : TransactionRow) (t : WagerTransaction)
    → to_domain r ≡ ok t
    → (t.money ≡ from_minor_units r.amount_minor_units r.currency)
      × (t.id ≡ r.id)
      × (t.status ≡ r.status)
unfolding to_domain rehydrate
to_domain-money r t h = ground arith

or_not_found-IsMoney :
    (id : Uuid) (rows : List TransactionRow) (t : WagerTransaction)
    → HaveInt64Amounts rows
    → or_not_found (find_first (has_id id) rows) ≡ ok t
    → IsMoney t.money
or_not_found-IsMoney id rows t amounts h = elim (Option-cases (find_first (has_id id) rows)) [
  | inl missing ↦ absurd (ground (arith, h, missing))
  | inr (r, found) ↦
      let (same, _, _) = to_domain-money r t (rw found at h) in
      rw same
        (find_first-All (λ r. IsInt64 r.amount_minor_units) (has_id id) rows r amounts found).1
]

-- A transaction that was read from amounts in range has one.
pub get_by_id-IsMoney :
    (id : Uuid) (s : World) (t : WagerTransaction) (s' : World)
    → HaveInt64Amounts s.db.transactions
    → get_by_id id s ≡ (ok t, s')
    → IsMoney t.money
unfolding scan_one ◌>>=◌
get_by_id-IsMoney id s t s' amounts h =
    or_not_found-IsMoney id (call s).1.db.transactions t (rw (call-db s) amounts) (ground arith)

replace_row-amounts :
    (new : TransactionRow) (rows : List TransactionRow)
    → HaveInt64Amounts rows
    → IsInt64 new.amount_minor_units
    → HaveInt64Amounts (replace_row new rows)
unfolding replace_row
replace_row-amounts new [] h p = tt
replace_row-amounts new (r ∷ rows) (q, h) p = elim (Bool-cases (r.id == new.id)) [
  | inl same ↦ rw same (p, h)
  | inr other ↦ rw other (q, replace_row-amounts new rows h p)
]

pub reschedule_rows-amounts :
    (id : Uuid) (attempts : ℕ) (next : Time) (rows : List TransactionRow)
    → HaveInt64Amounts rows
    → HaveInt64Amounts (reschedule_rows id attempts next rows)
unfolding reschedule_rows
reschedule_rows-amounts id attempts next [] h = tt
reschedule_rows-amounts id attempts next (r ∷ rows) (p, h) =
    let rest = reschedule_rows-amounts id attempts next rows h in
    elim (Bool-cases (has_id id r && is_awaiting r.status)) [
      | inl due ↦ rw due (p, rest)
      | inr other ↦ rw other (p, rest)
    ]

update_found-db :
    (t : WagerTransaction) (r : TransactionRow) (s s' : World)
    → update_found t (some r) s ≡ (ok tt, s')
    → s'.db ≡ record s.db { transactions = replace_row (updated_row t r) s.db.transactions }
unfolding ◌>>=◌
update_found-db t r s s' h = ground arith

-- `Update` replaces the row of the transaction, which was there.
pub update_transaction-db :
    (t : WagerTransaction) (s s' : World)
    → update_transaction t s ≡ (ok tt, s')
    → (r : TransactionRow) × (find_first (has_id t.id) s.db.transactions ≡ some r)
      × (s'.db ≡ record s.db { transactions = replace_row (updated_row t r) s.db.transactions })
unfolding update_transaction ◌>>=◌
update_transaction-db t s s' h =
    let s₁ = (call s).1 in
    elim (Option-cases (find_first (has_id t.id) s₁.db.transactions)) [
      | inl missing ↦ absurd (ground (arith, missing))
      | inr (r, found) ↦
          let after = update_found-db t r s₁ s' (ground (arith, found)) in
          (r, rw (← call-db s) found, rw (← call-db s) after)
    ]

pub record_reference_attempt-db :
    (id : Uuid) (attempts : ℕ) (next : Time) (s s' : World)
    → record_reference_attempt id attempts next s ≡ (ok tt, s')
    → s'.db ≡ record s.db { transactions = reschedule_rows id attempts next s.db.transactions }
unfolding record_reference_attempt ◌>>=◌
record_reference_attempt-db id attempts next s s' h = ground (arith, call-db s)

pub claim_pending_reference-db :
    (limit : ℕ) (now : Time) (s : World) → (claim_pending_reference limit now s).1.db ≡ s.db
unfolding claim_pending_reference ◌>>=◌
claim_pending_reference-db limit now s = ground (arith, call-db s)

pub count_pending_reference-db : (s : World) → (count_pending_reference s).1.db ≡ s.db
unfolding count_pending_reference ◌>>=◌
count_pending_reference-db s = ground (arith, call-db s)

-- `Update` writes to no other table, and to no amount.
pub update_transaction-amounts :
    (t : WagerTransaction) (s s' : World)
    → update_transaction t s ≡ (ok tt, s')
    → (rows : List TransactionRow) × (s'.db ≡ record s.db { transactions = rows })
      × (HaveInt64Amounts s.db.transactions → IsMoney t.money → HaveInt64Amounts rows)
update_transaction-amounts t s s' h =
    let (r, found, d) = update_transaction-db t s s' h in
    (
      replace_row (updated_row t r) s.db.transactions,
      d,
      λ amounts money.
          replace_row-amounts (updated_row t r) s.db.transactions amounts
            (find_first-All (λ x. IsInt64 x.amount_minor_units) (has_id t.id) s.db.transactions r
              amounts found).1,
    )

pub find_first-id :
    (id : Uuid) (rows : List TransactionRow) (r : TransactionRow)
    → find_first (has_id id) rows ≡ some r
    → r.id ≡ id
unfolding find_first
find_first-id id [] r h = absurd cc
find_first-id id (x ∷ rows) r h = ground (arith, find_first-id id rows r)

or_not_found-row :
    (o : Option TransactionRow) (t : WagerTransaction)
    → or_not_found o ≡ ok t
    → (r : TransactionRow) × (o ≡ some r) × (t.id ≡ r.id) × (t.status ≡ r.status)
or_not_found-row none t h = absurd cc
or_not_found-row (some r) t h =
    let (_, own, status) = to_domain-money r t h in (r, refl, own, status)

-- A transaction that was read is that of the first row with its id.
pub get_by_id-row :
    (id : Uuid) (s : World) (t : WagerTransaction) (s' : World)
    → get_by_id id s ≡ (ok t, s')
    → (r : TransactionRow) × (find_first (has_id id) s.db.transactions ≡ some r)
      × (t.id ≡ id)
      × (t.status ≡ r.status)
unfolding scan_one ◌>>=◌
get_by_id-row id s t s' h =
    let (r, found, own, status) =
      or_not_found-row (find_first (has_id id) (call s).1.db.transactions) t (ground arith) in
    let found' : find_first (has_id id) s.db.transactions ≡ some r = rw (← call-db s) found in
    (r, found', own ∙ find_first-id id s.db.transactions r found', status)
