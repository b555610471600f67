-- ===== src/Store/Journals/Sums.antt =====
-- internal/postgres/journal_repo.go: the sum of a journal to which movements are added.
use jungle.Base.{◌≡◌, ◌++◌, List, [], ◌∷◌}
use jungle.Values.{Uuid}
use jungle.Int.{pos, ◌+ℤ◌, int_laws}
use jungle.Result.{ok}
use jungle.Journal.{Entry, MovementParams, new_movement, entries_of}
use jungle.Journal.Balanced.{new_movement_facts}
use jungle.Store.Journals.{net}

net-append : (xs ys : List Entry) → net (xs ++ ys) ≡ net xs +ℤ net ys
unfolding net
net-append [] ys = omega int_laws
net-append (x ∷ xs) ys = rw (net-append xs ys) (omega int_laws)

net-entries_of :
    (debit_id credit_id : Uuid) (p : MovementParams) → net (entries_of debit_id credit_id p) ≡ pos 0
unfolding net
net-entries_of debit_id credit_id p = omega int_laws

-- A movement that is added to a journal whose sum is zero leaves it zero.
pub net-movement :
    (rows es : List Entry) (debit_id credit_id : Uuid) (p : MovementParams)
    → new_movement debit_id credit_id p ≡ ok es
    → net rows ≡ pos 0
    → net (rows ++ es) ≡ pos 0
net-movement rows es debit_id credit_id p made h =
    let (same, _, _) = new_movement_facts debit_id credit_id p es made in
    rw (net-append, h, same, net-entries_of debit_id credit_id p) (omega int_laws)
