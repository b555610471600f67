-- ===== src/Store/Unique/Statements.antt =====
-- internal/postgres: each statement leaves the rows apart.
use jungle.Base.{
  ◌≡◌, refl, ap, ◌∙◌, ◌++◌, List, [], ◌∷◌, map, Bool, false, ◌&&◌, none, some, inl, inr, Bool-cases,
  arith, any, Distinct-append, Distinct-update, ◌==◌, ℕ,
}
use jungle.Values.{Uuid, Time}
use jungle.Store.Tables.{TransactionRow, LedgerRow, InboxRecord}
use jungle.Store.Transactions
use jungle.Store.Transactions.{has_row, has_id, find_first}
use jungle.Store.TransactionWrites.{
  replace_row, updated_row, has_same_identity, has_same_key, has_same_opening,
}
use jungle.Store.Logs
use jungle.Store.Logs.{has_collision, collides, find_message}
use jungle.Store.References.{is_awaiting, reschedule_rows}
use jungle.Store.Action.Histories.{Keeps-either}
use jungle.Store.Outcomes.{
  IsNew, insert_ledger-either, insert_entry-either, insert_inbox-either, insert_event-either,
  insert_wallet-either, update_balance-either, insert_transaction-either, update_transaction-either,
  record_reference_attempt-either,
}
use jungle.Store.Statements.{Writes}
use jungle.Store.Statements.Outbox.{OutboxWrites-of}
use jungle.Store.Evolution.{frozen}
use jungle.Store.Evolution.Rows.{find_first-same_id}
use jungle.Store.Unique.{AreApart, has_same_id, is_same_message, uniqueness}

has_row-any : (p : TransactionRow → Bool) (rows : List TransactionRow) → has_row p rows ≡ any p rows
unfolding has_row
has_row-any p [] = refl
has_row-any p (r ∷ rows) = rw (has_row-any p rows) refl

has_collision-any :
    (new : LedgerRow) (rows : List LedgerRow) → has_collision new rows ≡ any (collides new) rows
unfolding has_collision
has_collision-any new [] = refl
has_collision-any new (r ∷ rows) = rw (has_collision-any new rows) refl

find_message-any :
    (new : InboxRecord) (rows : List InboxRecord)
    → find_message new.consumer_name new.message_id rows ≡ none
    → any (is_same_message new) rows ≡ false
unfolding find_message
find_message-any new [] h = refl
find_message-any new (r ∷ rows) h = ground (arith, find_message-any new rows)

AreApart-append :
    (rows : List TransactionRow) (new : TransactionRow)
    → AreApart rows
    → IsNew new rows
    → AreApart (rows ++ new ∷ [])
AreApart-append rows new (ids, identities, keys, openings) (id, identity, key, opening) = (
  Distinct-append has_same_id rows new ids (rw (has_row-any (has_id new.id) rows) at id),
  Distinct-append has_same_identity rows new identities
      (rw (has_row-any (has_same_identity new) rows) at identity),
  Distinct-append has_same_key rows new keys (rw (has_row-any (has_same_key new) rows) at key),
  Distinct-append has_same_opening rows new openings
      (rw (has_row-any (has_same_opening new) rows) at opening),
)

-- The keys are columns that are written once.
AreApart-update :
    (rows rows' : List TransactionRow)
    → map frozen rows' ≡ map frozen rows
    → AreApart rows
    → AreApart rows'
AreApart-update rows rows' e (ids, identities, keys, openings) = (
  Distinct-update frozen has_same_id (λ y x. refl) rows rows' e ids,
  Distinct-update frozen has_same_identity (λ y x. refl) rows rows' e identities,
  Distinct-update frozen has_same_key (λ y x. refl) rows rows' e keys,
  Distinct-update frozen has_same_opening (λ y x. refl) rows rows' e openings,
)

replace_row-frozen :
    (new old : TransactionRow) (rows : List TransactionRow)
    → find_first (has_id new.id) rows ≡ some old
    → frozen new ≡ frozen old
    → map frozen (replace_row new rows) ≡ map frozen rows
unfolding find_first replace_row
replace_row-frozen new old [] h same = cc
replace_row-frozen new old (r ∷ rows) h same = elim (Bool-cases (r.id == new.id)) [
  | inl own ↦
      let is : old ≡ r = ground (arith, rw own at h) in
      rw own (ap (λ x. x ∷ map frozen rows) (same ∙ ap frozen is))
  | inr other ↦
      rw other (ap (λ xs. frozen r ∷ xs) (replace_row-frozen new old rows (rw other at h) same))
]

reschedule_rows-frozen :
    (id : Uuid) (attempts : ℕ) (next : Time) (rows : List TransactionRow)
    → map frozen (reschedule_rows id attempts next rows) ≡ map frozen rows
unfolding reschedule_rows
reschedule_rows-frozen id attempts next [] = refl
reschedule_rows-frozen id attempts next (r ∷ rows) =
    let rest = ap (λ xs. frozen r ∷ xs) (reschedule_rows-frozen id attempts next rows) in
    elim (Bool-cases (has_id id r && is_awaiting r.status)) [
      | inl due ↦ rw due rest
      | inr other ↦ rw other rest
    ]

-- Every statement of the repositories leaves the rows apart.
pub uniqueness-Writes : Writes uniqueness
uniqueness-Writes = record {
  wallet = λ w. Keeps-either _ _ (insert_wallet-either w) λ s new h. rw new h;
  balance = λ w expected.
      Keeps-either _ _ (update_balance-either w expected) λ s (r, found, new) h. rw new h;
  transaction = λ t. Keeps-either _ _ (insert_transaction-either t) λ s (is_new, new) h.
      rw new
        (AreApart-append s.db.transactions (Transactions.row_of s.db_now t) h.0 is_new, h.1, h.2);
  update = λ t. Keeps-either _ _ (update_transaction-either t) λ s (r, found, still, new) h.
      rw new (
        AreApart-update s.db.transactions _
            (replace_row-frozen (updated_row t r) r s.db.transactions
              (find_first-same_id t.id s.db.transactions r found) refl)
            h.0,
        h.1,
        h.2,
      );
  attempt = λ id attempts next.
      Keeps-either _ _ (record_reference_attempt-either id attempts next) λ s new h. rw new (
        AreApart-update s.db.transactions _
            (reschedule_rows-frozen id attempts next s.db.transactions) h.0,
        h.1,
        h.2,
      );
  ledger = λ e. Keeps-either _ _ (insert_ledger-either e) λ s (free, new) h. rw new (
    h.0,
    Distinct-append collides s.db.ledger (Logs.row_of e) h.1
        (rw (has_collision-any (Logs.row_of e) s.db.ledger) at free),
    h.2,
  );
  entry = λ e. Keeps-either _ _ (insert_entry-either e) λ s new h. rw new h;
  message = λ r. Keeps-either _ _ (insert_inbox-either r) λ s (free, new) h. rw new (
    h.0,
    h.1,
    Distinct-append is_same_message s.db.inbox r h.2 (find_message-any r s.db.inbox free),
  );
  event = λ e. Keeps-either _ _ (insert_event-either e) λ s new h. rw new h;
  outbox = OutboxWrites-of λ db rows h. h;
}
