-- ===== src/App/Settle/Reversals.antt =====
-- internal/app/process_wager.go: `settle` adds a successful reversal only where it processes one.
use jungle.Base.{
  ◌≡◌, refl, arith, [], ◌∷◌, Bool, true, false, ◌&&◌, inl, inr, Bool-cases, if◌then◌else◌,
}
use jungle.Values.{Uuid, Time}
use jungle.Money.{Money}
use jungle.Wallet.{Wallet}
use jungle.Wallet.Entry.{LedgerDirection}
use jungle.Event.{Envelope, Meta}
use jungle.Wagertx.{
  WagerTransaction, mark_processed, mark_rejected, mark_pending_reference, transition_to,
  is_processed,
}
use jungle.Wagertx.Constants.{Kind, FailureCode}
use jungle.Result.{Error, Result, ok, err}
use jungle.Store.Action.{World, lift, pure, raise, ◌>>=◌, ◌>>◌}
use jungle.Store.Action.Laws.{>>=-elim, lift-elim, pure-eq-ok}
use jungle.Store.Logs.{insert_outbox}
use jungle.Store.Effects.{insert_outbox-db}
use jungle.Store.Reversals.{Adds, Adds-weaken, Adds-then, names}
use jungle.App.Decide.{Decision, DecisionKind}
use jungle.App.Settle.{
  ProcessWagerResult, NewIds, Save, apply_movement, reject, park, note, book, settle, move_funds,
  settle_kind,
}
use jungle.App.Settle.Booking.{SavesTransaction, book-Booked}

-- A saved transaction is a reversal of what it names, if it is of a kind that `can` be one.
abbrev pub saved_reversal : (Kind → Bool) → WagerTransaction → Uuid → Bool
saved_reversal can t id = names can t id && is_processed t.status

abbrev pub SavesReversal : (Kind → Bool) → Save → Type 0
SavesReversal can save =
    (t : WagerTransaction) (s s' : World)
    → save t s ≡ (ok tt, s')
    → Adds (saved_reversal can t) s.db s'.db

abbrev pub no_reversal : Uuid → Bool
no_reversal id = false

abbrev pub processes : DecisionKind → Bool
processes DecisionKind.process = true
processes _ = false

-- The reversals that a decision may add.
abbrev pub decided_reversal : (Kind → Bool) → WagerTransaction → DecisionKind → Uuid → Bool
decided_reversal can t k id = processes k && names can t id

mark_processed-names :
    (can : Kind → Bool) (balance : Money) (now : Time) (t t' : WagerTransaction) (id : Uuid)
    → mark_processed balance now t ≡ ok t'
    → names can t' id ≡ names can t id
unfolding mark_processed transition_to
mark_processed-names can balance now t t' id h = ground arith

mark_rejected-status :
    (code : FailureCode) (now : Time) (t t' : WagerTransaction)
    → mark_rejected code now t ≡ ok t'
    → is_processed t'.status ≡ false
unfolding mark_rejected transition_to
mark_rejected-status code now t t' h = ground arith

mark_pending_reference-status :
    (now : Time) (t t' : WagerTransaction)
    → mark_pending_reference now t ≡ ok t'
    → is_processed t'.status ≡ false
unfolding mark_pending_reference transition_to
mark_pending_reference-status now t t' h = ground arith

module _ {A : Type 0} (can : Kind → Bool) (save : Save) (adds : SavesReversal can save) where
  -- A transaction is saved and one event is sent.
  recorded-Adds :
      (t : WagerTransaction) (e : Result Envelope) (answer : A) (s : World) (r : A) (s' : World)
      → (do save t; event ← lift e; insert_outbox (event ∷ []); pure answer) s ≡ (ok r, s')
      → Adds (saved_reversal can t) s.db s'.db
  recorded-Adds t e answer s r s' h = >>=-elim _ _ s h λ _ s₁ saved h₁.
      lift-elim _ _ s₁ h₁ λ event _ h₂. >>=-elim _ _ s₁ h₂ λ _ s₂ sent h₃.
        let d = insert_outbox-db (event ∷ []) s₁ s₂ sent in
        let (_, end) = pure-eq-ok answer s₂ h₃ in
        Adds-then _ s.db s₁.db s'.db (adds t s s₁ saved) (rw (end, d) refl)

  pub unprocessed-Adds :
      (t : WagerTransaction) (e : Result Envelope) (answer : A) (s : World) (r : A) (s' : World)
      → is_processed t.status ≡ false
      → (do save t; event ← lift e; insert_outbox (event ∷ []); pure answer) s ≡ (ok r, s')
      → Adds no_reversal s.db s'.db
  unprocessed-Adds t e answer s r s' unsettled h =
      Adds-weaken (saved_reversal can t) no_reversal s.db s'.db
        (λ id yes. ground (arith, unsettled)) (recorded-Adds t e answer s r s' h)

module _ (can : Kind → Bool) (ids : NewIds) (m : Meta) (now : Time) (save : Save)
    (saves : SavesTransaction save) (adds : SavesReversal can save) where
  pub reject-Adds :
      (t : WagerTransaction) (w : Wallet) (code : FailureCode) (s : World) (r : ProcessWagerResult)
      (s' : World)
      → reject ids m now save t w code s ≡ (ok r, s')
      → Adds no_reversal s.db s'.db
  unfolding reject
  reject-Adds t w code s r s' h = lift-elim _ _ s h λ t' marked h₁.
      unprocessed-Adds can save adds t' _ _ s r s' (mark_rejected-status code now t t' marked) h₁

  park-Adds :
      (t : WagerTransaction) (w : Wallet) (s : World) (r : ProcessWagerResult) (s' : World)
      → park ids m now save t w s ≡ (ok r, s')
      → Adds no_reversal s.db s'.db
  unfolding park
  park-Adds t w s r s' h = lift-elim _ _ s h λ t' marked h₁.
      unprocessed-Adds can save adds t' _ _ s r s' (mark_pending_reference-status now t t' marked)
        h₁

  processed_weakens :
      (t t' : WagerTransaction) (balance : Money) (id : Uuid)
      → mark_processed balance now t ≡ ok t'
      → saved_reversal can t' id ≡ true
      → names can t id ≡ true
  processed_weakens t t' balance id marked h =
      let same = mark_processed-names can balance now t t' id marked in rw (← same) (ground arith)

  note-Adds :
      (t : WagerTransaction) (w : Wallet) (s : World) (r : ProcessWagerResult) (s' : World)
      → note ids m now save t w s ≡ (ok r, s')
      → Adds (names can t) s.db s'.db
  unfolding note
  note-Adds t w s r s' h = lift-elim _ _ s h λ t' marked h₁.
      Adds-weaken _ _ s.db s'.db (λ id. processed_weakens t t' w.balance id marked)
        (recorded-Adds can save adds t' _ _ s r s' h₁)

  book-Adds :
      (t : WagerTransaction) (w w' : Wallet) (d : LedgerDirection) (s : World)
      (r : ProcessWagerResult) (s' : World)
      → book ids m now save t w w' d s ≡ (ok r, s')
      → Adds (names can t) s.db s'.db
  book-Adds t w w' d s r s' h =
      let b = book-Booked ids m now save saves t w w' d s r s' h in
      Adds-weaken _ _ s.db s'.db
        (λ id. processed_weakens t b.transaction w'.balance id b.is_processed)
        (Adds-then _ s.db b.saved_to.db s'.db
          (rw b.began at (adds b.transaction b.saved_in b.saved_to b.is_saved)) b.ended)

  reject_if-Adds :
      (c : Bool) (t : WagerTransaction) (w : Wallet) (code : FailureCode) (e : Error) (s : World)
      (r : ProcessWagerResult) (s' : World)
      → (if c then reject ids m now save t w code else raise e) s ≡ (ok r, s')
      → Adds no_reversal s.db s'.db
  reject_if-Adds true t w code e s r s' h = reject-Adds t w code s r s' h
  reject_if-Adds false t w code e s r s' h = cc

  move_funds-Adds :
      (t : WagerTransaction) (w : Wallet) (d : LedgerDirection) (o : Result Wallet) (s : World)
      (r : ProcessWagerResult) (s' : World)
      → move_funds ids m now save t w d o s ≡ (ok r, s')
      → Adds (names can t) s.db s'.db
  move_funds-Adds t w d (ok w') s r s' h = book-Adds t w w' d s r s' h
  move_funds-Adds t w d (err e) s r s' h =
      Adds-weaken no_reversal (names can t) s.db s'.db (λ id no. cc)
        (reject_if-Adds _ t w _ e s r s' h)

  settle_kind-Adds :
      (t : WagerTransaction) (w : Wallet) (d : Decision) (k : DecisionKind) (s : World)
      (r : ProcessWagerResult) (s' : World)
      → settle_kind ids m now save t w d k s ≡ (ok r, s')
      → Adds (decided_reversal can t k) s.db s'.db
  settle_kind-Adds t w d DecisionKind.pending_reference s r s' h = park-Adds t w s r s' h
  settle_kind-Adds t w d DecisionKind.reject s r s' h = reject-Adds t w d.failure s r s' h
  settle_kind-Adds t w d DecisionKind.process s r s' h = elim (Bool-cases d.moves_funds) [
    | inl moves ↦
        move_funds-Adds t w d.direction (apply_movement w d.direction t.money now) s r s'
          (rw moves at h)
    | inr stays ↦ note-Adds t w s r s' (rw stays at h)
  ]

  pub settle-Adds :
      (t : WagerTransaction) (w : Wallet) (d : Decision) (s : World) (r : ProcessWagerResult)
      (s' : World)
      → settle ids m now save t w d s ≡ (ok r, s')
      → Adds (decided_reversal can t d.kind) s.db s'.db
  unfolding settle
  settle-Adds t w d s r s' h = settle_kind-Adds t w d d.kind s r s' h
