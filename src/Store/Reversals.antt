-- ===== src/Store/Reversals.antt =====
-- internal/postgres/transaction_repo.go: how many successful reversals a transaction has.
use jungle.Base.{
  ℕ, ◌+◌, ◌≤◌, ◌≡◌, refl, List, [], ◌∷◌, ◌++◌, Bool, true, false, ◌&&◌, if◌then◌else◌, arith,
}
use jungle.Values.{Uuid, Time}
use jungle.Wagertx.{WagerTransaction}
use jungle.Wagertx.Constants.{Kind}
use jungle.Store.Tables.{Db, TransactionRow}
use jungle.Store.Action.{World, ◌>>=◌}
use jungle.Store.Action.Laws.{call-db}
use jungle.Store.Transactions.{
  is_reversal_of, has_row, has_successful_reversal, uuid_column_is, null_uuid,
}
use jungle.Store.TransactionWrites.{replace_row}
use jungle.Store.References.{reschedule_rows}
use jungle.Result.{ok}

unfoldable pub reversals : Uuid → List TransactionRow → ℕ
reversals id [] = 0
reversals id (r ∷ rows) =
    let rest = reversals id rows in if is_reversal_of id r then rest + 1 else rest

-- No transaction has two successful reversals.
abbrev pub IsReversedOnce : Db → Type 0
IsReversedOnce db = (id : Uuid) → reversals id db.transactions ≤ 1

abbrev pub one : Bool → ℕ
one b = if b then 1 else 0

-- Of each transaction that `f` holds of there may be one more reversal.
abbrev pub Adds : (Uuid → Bool) → Db → Db → Type 0
Adds f a b = (id : Uuid) → reversals id b.transactions ≤ reversals id a.transactions + one (f id)

-- The same transactions.
pub Adds-same : (f : Uuid → Bool) (a b : Db) → b.transactions ≡ a.transactions → Adds f a b
Adds-same f a b same id = rw same (omega arith)

pub Adds-weaken :
    (f g : Uuid → Bool) (a b : Db)
    → ((id : Uuid) → f id ≡ true → g id ≡ true)
    → Adds f a b
    → Adds g a b
Adds-weaken f g a b h adds id =
    let more = adds id in let under = h id in ground (arith, more, under)

pub Adds-then :
    (f : Uuid → Bool) (a b c : Db) → Adds f a b → c.transactions ≡ b.transactions → Adds f a c
Adds-then f a b c adds same id = rw same (adds id)

-- A reversal is added only of what has none.
pub IsReversedOnce-Adds :
    (f : Uuid → Bool) (a b : Db)
    → Adds f a b
    → ((id : Uuid) → f id ≡ true → reversals id a.transactions ≡ 0)
    → IsReversedOnce a
    → IsReversedOnce b
IsReversedOnce-Adds f a b adds free once id =
    let more = adds id in
    let before = once id in let none_yet = free id in ground (arith, more, before, none_yet)

no_row-reversals :
    (id : Uuid) (rows : List TransactionRow)
    → has_row (is_reversal_of id) rows ≡ false
    → reversals id rows ≡ 0
unfolding has_row reversals
no_row-reversals id [] h = refl
no_row-reversals id (r ∷ rows) h = ground (arith, no_row-reversals id rows)

-- `HasSuccessfulReversal` has found none.
pub has_successful_reversal-false :
    (id : Uuid) (s : World)
    → (has_successful_reversal id s).0 ≡ ok false
    → reversals id s.db.transactions ≡ 0
unfolding has_successful_reversal ◌>>=◌
has_successful_reversal-false id s h =
    no_row-reversals id s.db.transactions (ground (arith, call-db s))

pub reversals-append :
    (id : Uuid) (rows : List TransactionRow) (new : TransactionRow)
    → reversals id (rows ++ new ∷ []) ≤ reversals id rows + one (is_reversal_of id new)
unfolding reversals
reversals-append id [] new = ground arith
reversals-append id (r ∷ rows) new = ground (arith, reversals-append id rows new)

pub reversals-replace_row :
    (id : Uuid) (new : TransactionRow) (rows : List TransactionRow)
    → reversals id (replace_row new rows) ≤ reversals id rows + one (is_reversal_of id new)
unfolding reversals replace_row
reversals-replace_row id new [] = ground arith
reversals-replace_row id new (r ∷ rows) = ground (arith, reversals-replace_row id new rows)

pub reversals-reschedule_rows :
    (id target : Uuid) (attempts : ℕ) (next : Time) (rows : List TransactionRow)
    → reversals id (reschedule_rows target attempts next rows) ≡ reversals id rows
unfolding reversals reschedule_rows
reversals-reschedule_rows id target attempts next [] = refl
reversals-reschedule_rows id target attempts next (r ∷ rows) =
    ground (arith, reversals-reschedule_rows id target attempts next rows)

-- The transaction names `id` as its reference and is of a kind that `can` holds of.
abbrev pub names : (Kind → Bool) → WagerTransaction → Uuid → Bool
names can t id = uuid_column_is (null_uuid t.reference_transaction_id) id && can t.kind
