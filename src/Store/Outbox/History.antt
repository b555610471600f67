-- ===== src/Store/Outbox/History.antt =====
-- internal/postgres/outbox_repo.go: what the claims, marks and reschedulings do to the events that
-- stand in the outbox.
use jungle.Base.{
  ◌≡◌, ◌∙◌, refl, ap, arith, ℕ, String, Bool, true, map, some, List, [], ◌∷◌, inl, inr, Bool-cases,
  Option-cases,
}
use jungle.Values.{Uuid, Time}
use jungle.Result.{ok}
use jungle.Store.Tables.{OutboxRow}
use jungle.Store.Action.{World, ◌>>=◌}
use jungle.Store.Action.Laws.{call-db}
use jungle.Store.Outbox.{
  OutboxRecord, record_of, is_unpublished, is_open, update_where, locked, names, claimed, claim,
  published, mark_published, rescheduled, reschedule, oldest_pending,
}
use jungle.App.Backoff.{Duration, add_time}

mark_published-db :
    (id : Uuid) (now : Time) (s s' : World)
    → mark_published id now s ≡ (ok tt, s')
    → s'.db ≡ record s.db { outbox = update_where (is_open id) (published now) s.db.outbox }
unfolding mark_published ◌>>=◌
mark_published-db id now s s' h = ground (arith, call-db s)

reschedule-db :
    (id : Uuid) (attempts : ℕ) (next : Time) (s s' : World)
    → reschedule id attempts next s ≡ (ok tt, s')
    → s'.db
      ≡ record s.db { outbox = update_where (is_open id) (rescheduled attempts next) s.db.outbox }
unfolding reschedule ◌>>=◌
reschedule-db id attempts next s s' h = ground (arith, call-db s)

pub oldest_pending-db : (now : Time) (s : World) → (oldest_pending now s).1.db ≡ s.db
unfolding oldest_pending ◌>>=◌
oldest_pending-db now s = ground (arith, call-db s)

abbrev pub locked_rows : String → ℕ → Duration → Time → List OutboxRow → List OutboxRow
locked_rows owner limit lock_for now rows =
    update_where (λ r. names r.event.event_id (claimed limit now rows))
      (locked owner (add_time now lock_for)) rows

pub claim-db :
    (owner : String) (limit : ℕ) (lock_for : Duration) (now : Time) (s : World)
    (batch : List OutboxRecord) (s' : World)
    → claim owner limit lock_for now s ≡ (ok batch, s')
    → (batch ≡ map record_of (claimed limit now s.db.outbox))
      × (s'.db ≡ record s.db { outbox = locked_rows owner limit lock_for now s.db.outbox })
unfolding claim ◌>>=◌
claim-db owner limit lock_for now s batch s' h = ground (arith, call-db s)

module _ (Accepted : Uuid → Type 0) where
  -- How a row may go on: its event stays, once published it stays so with its time, and it is
  -- published only if its event was accepted.
  abbrev pub Follows : OutboxRow → OutboxRow → Type 0
  Follows r r' =
      (r'.event ≡ r.event)
      × ((t : Time) → r.published_at ≡ some t → r'.published_at ≡ some t)
      × ((t : Time)
          → is_unpublished r ≡ true
          → r'.published_at ≡ some t
          → Accepted r.event.event_id)

  -- The same for the rows of a table, of which none comes or goes.
  abbrev pub AllFollow : List OutboxRow → List OutboxRow → Type 0
  AllFollow [] [] = Unit
  AllFollow [] (r' ∷ rows') = ⊥
  AllFollow (r ∷ rows) [] = ⊥
  AllFollow (r ∷ rows) (r' ∷ rows') = Follows r r' × AllFollow rows rows'

  -- A row whose publication does not change.
  unmarked-Follows :
      (r r' : OutboxRow) → r'.event ≡ r.event → r'.published_at ≡ r.published_at → Follows r r'
  unmarked-Follows r r' same kept =
      (same, λ t h. kept ∙ h, λ t fresh told. absurd (ground (arith, fresh, told, kept)))

  pub AllFollow-refl : (rows : List OutboxRow) → AllFollow rows rows
  AllFollow-refl [] = tt
  AllFollow-refl (r ∷ rows) = (unmarked-Follows r r refl refl, AllFollow-refl rows)

  Follows-trans : (r r' r'' : OutboxRow) → Follows r r' → Follows r' r'' → Follows r r''
  Follows-trans r r' r'' (event, kept, told) (event', kept', told') = (
    event' ∙ event,
    λ t h. kept' t (kept t h),
    λ t fresh marked. elim (Option-cases r'.published_at) [
      | inl still ↦ rw (← ap (λ e. e.event_id) event) (told' t (rw still refl) marked)
      | inr (t', marked') ↦ told t' fresh marked'
    ],
  )

  pub AllFollow-trans : (a b c : List OutboxRow) → AllFollow a b → AllFollow b c → AllFollow a c
  AllFollow-trans [] [] [] h k = tt
  AllFollow-trans [] [] (z ∷ c) h k = k
  AllFollow-trans [] (y ∷ b) c h k = absurd h
  AllFollow-trans (x ∷ a) [] c h k = absurd h
  AllFollow-trans (x ∷ a) (y ∷ b) [] h k = k
  AllFollow-trans (x ∷ a) (y ∷ b) (z ∷ c) (p, h) (q, k) =
      (Follows-trans x y z p q, AllFollow-trans a b c h k)

  -- An update whose rows each go on as they may.
  update_where-AllFollow :
      (test : OutboxRow → Bool) (f : OutboxRow → OutboxRow)
      → ((r : OutboxRow) → test r ≡ true → Follows r (f r))
      → (rows : List OutboxRow) → AllFollow rows (update_where test f rows)
  unfolding update_where
  update_where-AllFollow test f may [] = tt
  update_where-AllFollow test f may (r ∷ rows) =
      let rest = update_where-AllFollow test f may rows in
      elim (Bool-cases (test r)) [
        | inl chosen ↦ rw chosen (may r chosen, rest)
        | inr other ↦ rw other (unmarked-Follows r r refl refl, rest)
      ]

  is_open-parts :
      (id : Uuid) (r : OutboxRow)
      → is_open id r ≡ true
      → (r.event.event_id ≡ id) × (is_unpublished r ≡ true)
  is_open-parts id r h = ground (arith, h)

  published-Follows :
      (id : Uuid) (now : Time) (r : OutboxRow)
      → Accepted id
      → is_open id r ≡ true
      → Follows r (published now r)
  published-Follows id now r accepted h =
      let (own, fresh) = is_open-parts id r h in
      (refl, λ t marked. absurd (ground (arith, fresh, marked)), λ _ _ _. rw own accepted)

  pub mark_published-AllFollow :
      (id : Uuid) (now : Time) (s s' : World)
      → Accepted id
      → mark_published id now s ≡ (ok tt, s')
      → AllFollow s.db.outbox s'.db.outbox
  mark_published-AllFollow id now s s' accepted h =
      rw (ap (λ x. x.outbox) (mark_published-db id now s s' h)) (
        update_where-AllFollow (is_open id) (published now)
          (λ r. published-Follows id now r accepted) s.db.outbox)

  pub reschedule-AllFollow :
      (id : Uuid) (attempts : ℕ) (next : Time) (s s' : World)
      → reschedule id attempts next s ≡ (ok tt, s')
      → AllFollow s.db.outbox s'.db.outbox
  reschedule-AllFollow id attempts next s s' h =
      rw (ap (λ x. x.outbox) (reschedule-db id attempts next s s' h)) (
        update_where-AllFollow (is_open id) (rescheduled attempts next)
          (λ r _. unmarked-Follows r (rescheduled attempts next r) refl refl) s.db.outbox)

  pub claim-AllFollow :
      (owner : String) (limit : ℕ) (lock_for : Duration) (now : Time) (s : World)
      (batch : List OutboxRecord) (s' : World)
      → claim owner limit lock_for now s ≡ (ok batch, s')
      → AllFollow s.db.outbox s'.db.outbox
  claim-AllFollow owner limit lock_for now s batch s' h =
      let until = add_time now lock_for in
      rw (ap (λ x. x.outbox) (claim-db owner limit lock_for now s batch s' h).1) (
        update_where-AllFollow _ (locked owner until)
          (λ r _. unmarked-Follows r (locked owner until r) refl refl) s.db.outbox)
