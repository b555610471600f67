-- ===== src/Store/Evolution/Rows.antt =====
-- internal/postgres: the updates of rows change them only as they may change.
use jungle.Base.{
  ℕ, ◌≡◌, refl, ap, ◌∙◌, List, [], ◌∷◌, some, Bool, true, false, arith, inl, inr, Bool-cases,
  Extends, Extends-refl, ◌==◌, ◌&&◌, sym,
}
use jungle.Values.{Uuid, Time}
use jungle.Wagertx.Constants.{status_is_terminal}
use jungle.Store.Tables.{WalletRow, TransactionRow, OutboxRow}
use jungle.Store.Wallets.{find_wallet, replace_wallet}
use jungle.Store.Transactions.{find_first, has_id}
use jungle.Store.TransactionWrites.{replace_row}
use jungle.Store.References.{is_awaiting, reschedule_rows}
use jungle.Store.Outbox.{is_open, update_where, published, is_unpublished}
use jungle.Store.Evolution.{
  frozen_wallet, SameWallet, SameOperation, SameEvent, SameOperation-refl, SameEvent-refl,
}

-- The first row of the wallet goes on as the new one.
pub replace_wallet-Extends :
    (new old : WalletRow) (rows : List WalletRow)
    → find_wallet new.id rows ≡ some old
    → SameWallet old new
    → Extends SameWallet rows (replace_wallet new rows)
unfolding find_wallet replace_wallet
replace_wallet-Extends new old [] h same = cc
replace_wallet-Extends new old (r ∷ rows) h same = elim (Bool-cases (r.id == new.id)) [
  | inl own ↦
      let is : r ≡ old = ground (arith, rw own at h) in
      rw own (same ∙ ap frozen_wallet (sym is), Extends-refl SameWallet (λ x. refl) rows)
  | inr other ↦ rw other (refl, replace_wallet-Extends new old rows (rw other at h) same)
]

-- The row that is found by an id is the one that is found by its own id.
find_first-id :
    (id : Uuid) (rows : List TransactionRow) (r : TransactionRow)
    → find_first (has_id id) rows ≡ some r
    → r.id ≡ id
unfolding find_first
find_first-id id [] r h = cc
find_first-id id (x ∷ rows) r h = ground (arith, find_first-id id rows r)

pub find_first-same_id :
    (id : Uuid) (rows : List TransactionRow) (r : TransactionRow)
    → find_first (has_id id) rows ≡ some r
    → find_first (has_id r.id) rows ≡ some r
find_first-same_id id rows r h =
    ap (λ i. find_first (has_id i) rows) (find_first-id id rows r h) ∙ h

pub replace_row-Extends :
    (new old : TransactionRow) (rows : List TransactionRow)
    → find_first (has_id new.id) rows ≡ some old
    → SameOperation old new
    → Extends SameOperation rows (replace_row new rows)
unfolding find_first replace_row
replace_row-Extends new old [] h same = cc
replace_row-Extends new old (r ∷ rows) h same = elim (Bool-cases (r.id == new.id)) [
  | inl own ↦
      let is : old ≡ r = ground (arith, rw own at h) in
      rw own (rw is at same, Extends-refl SameOperation SameOperation-refl rows)
  | inr other ↦
      rw other (SameOperation-refl r, replace_row-Extends new old rows (rw other at h) same)
]

-- A row that awaits its reference is not settled.
awaiting_open :
    (r : TransactionRow) → is_awaiting r.status ≡ true → status_is_terminal r.status ≡ false
unfolding status_is_terminal
awaiting_open r h = ground (arith, h)

pub reschedule_rows-Extends :
    (id : Uuid) (attempts : ℕ) (next : Time) (rows : List TransactionRow)
    → Extends SameOperation rows (reschedule_rows id attempts next rows)
unfolding reschedule_rows
reschedule_rows-Extends id attempts next [] = tt
reschedule_rows-Extends id attempts next (r ∷ rows) =
    let rest = reschedule_rows-Extends id attempts next rows in
    elim (Bool-cases (has_id id r && is_awaiting r.status)) [
      | inl due ↦
          rw due ((refl, λ settled. absurd (ground (arith, due, settled, awaiting_open r))), rest)
      | inr other ↦ rw other (SameOperation-refl r, rest)
    ]

-- An update that leaves the event alone, and the time of a publication.
pub update_where-Extends :
    (test : OutboxRow → Bool) (f : OutboxRow → OutboxRow)
    → ((r : OutboxRow) → (f r).event ≡ r.event)
    → ((r : OutboxRow)
        → test r ≡ true
        → is_unpublished r ≡ false
        → (f r).published_at ≡ r.published_at)
    → (rows : List OutboxRow) → Extends SameEvent rows (update_where test f rows)
unfolding update_where
update_where-Extends test f same kept [] = tt
update_where-Extends test f same kept (r ∷ rows) =
    let rest = update_where-Extends test f same kept rows in
    elim (Bool-cases (test r)) [
      | inl chosen ↦ rw chosen ((same r, kept r chosen), rest)
      | inr other ↦ rw other (SameEvent-refl r, rest)
    ]

pub mark_published-Extends :
    (id : Uuid) (now : Time) (rows : List OutboxRow)
    → Extends SameEvent rows (update_where (is_open id) (published now) rows)
mark_published-Extends id now rows =
    update_where-Extends (is_open id) (published now) (λ r. refl)
      (λ r h told. absurd (ground (arith, h, told))) rows
