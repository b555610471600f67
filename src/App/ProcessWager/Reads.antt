-- ===== src/App/ProcessWager/Reads.antt =====
-- internal/app/process_wager.go: the lookups and `decide` leave the tables alone.
use jungle.Base.{
  ◌≡◌, ◌∙◌, refl, ap, arith, Bool, true, false, Option, none, some, if◌then◌else◌, str_eq, inl, inr,
  Bool-cases,
}
use jungle.Values.{Uuid}
use jungle.Result.{Result, ok, err}
use jungle.Wallet.{Wallet, rehydrate_wallet}
use jungle.Wallet.Entry.{LedgerDirection, credit}
use jungle.Wagertx.{WagerTransaction, resolve_reference}
use jungle.Wagertx.Constants.{Kind, Status, FailureCode}
use jungle.Store.Tables.{WalletRow}
use jungle.Store.Action.{Action, World, pure, lift, call, ◌>>=◌}
use jungle.Store.Action.Laws.{call-db, >>=-elim, lift-elim, pure-eq-ok}
use jungle.Store.Reconciled.{find_wallet-id}
use jungle.Store.Wallets.{or_not_found, get_wallet, find_wallet, wallet_of}
use jungle.Store.Transactions.{has_identity, has_successful_reversal}
use jungle.Store.Effects.{scan_one-db, has_successful_reversal-db}
use jungle.App.Decide.{
  decide_reference, attached, kept, Decision, move, refuse, optional, or_none, if_any, ignored,
  find_reference, attach_optional_reference, decide_reversal, decide_direction, decide_found,
  decide_kind, decide,
}
use jungle.App.Settle.Reconciles.{IsStored}

module _ {A : Type 0} where
  or_none-db : (r : Result A × World) → (or_none r).1.db ≡ r.1.db
  or_none-db (ok a, s) = refl
  or_none-db (err e, s) = ground arith

  pub optional-db : (m : Action A) (s : World) → (m s).1.db ≡ s.db → (optional m s).1.db ≡ s.db
  optional-db m s h = or_none-db (m s) ∙ h

  ignored-db : (r : Result A × World) → (ignored r).1.db ≡ r.1.db
  ignored-db (ok a, s) = refl
  ignored-db (err e, s) = refl

  pub read-db :
      (m : Action A) (s : World) {r : Result A} {s' : World}
      → m s ≡ (r, s')
      → (m s).1.db ≡ s.db
      → s'.db ≡ s.db
  read-db m s e h = rw e at h

  pub if_any-db : (m : Action A) (s : World) → (m s).1.db ≡ s.db → (if_any m s).1.db ≡ s.db
  if_any-db m s h = ignored-db (m s) ∙ h

rehydrate_wallet-ok : (p w : Wallet) → rehydrate_wallet p ≡ ok w → w ≡ p
unfolding rehydrate_wallet
rehydrate_wallet-ok p w h = ground arith

or_not_found-ok :
    (o : Option WalletRow) (w : Wallet)
    → or_not_found o ≡ ok w
    → (r : WalletRow) × (o ≡ some r) × (w ≡ wallet_of r)
or_not_found-ok none w h = absurd cc
or_not_found-ok (some r) w h = (r, refl, rehydrate_wallet-ok (wallet_of r) w h)

-- The wallet that was read is the stored one.
pub get_wallet-IsStored :
    (id : Uuid) (s : World) (w : Wallet) (s' : World)
    → get_wallet id s ≡ (ok w, s')
    → IsStored id w s.db
unfolding get_wallet ◌>>=◌
get_wallet-IsStored id s w s' h =
    let (r, found, read) =
      or_not_found-ok (find_wallet id (call s).1.db.wallets) w (ground arith) in
    let found' : find_wallet id s.db.wallets ≡ some r = rw (← call-db s) found in
    let own = find_wallet-id id s.db.wallets r found' in (r, found', rw read own, rw read refl)

abbrev Keeps : WagerTransaction → WagerTransaction → Type 0
Keeps t t' =
    (t'.money ≡ t.money) × (t'.id ≡ t.id) × (t'.wallet_id ≡ t.wallet_id) × (t'.kind ≡ t.kind)

-- What `decide` may change: neither a table nor the transaction's amount, id, wallet or kind.
abbrev pub Decided : WagerTransaction → World → WagerTransaction → World → Type 0
Decided t s t' s' = (s'.db ≡ s.db) × Keeps t t'

resolve_reference-Keeps :
    (id : Uuid) (t t' : WagerTransaction) → resolve_reference id t ≡ ok t' → Keeps t t'
unfolding resolve_reference
resolve_reference-Keeps id t t' h = ground arith

find_reference-db : (t : WagerTransaction) (s : World) → (find_reference t s).1.db ≡ s.db
find_reference-db t s = scan_one-db (has_identity t.provider_id t.reference_external_tx_id) s

kept-Keeps :
    (t : WagerTransaction) (id : Uuid) (r : Result WagerTransaction)
    → resolve_reference id t ≡ r
    → Keeps t (kept t r)
kept-Keeps t id (ok t') h = resolve_reference-Keeps id t t' h
kept-Keeps t id (err e) h = (refl, refl, refl, refl)

attached-Keeps : (t : WagerTransaction) (o : Option WagerTransaction) → Keeps t (attached t o)
attached-Keeps t none = (refl, refl, refl, refl)
attached-Keeps t (some ref) = kept-Keeps t ref.id (resolve_reference ref.id t) refl

pub attach_optional_reference-Decided :
    (t : WagerTransaction) (s : World) (t' : WagerTransaction) (s' : World)
    → attach_optional_reference t s ≡ (ok t', s')
    → Decided t s t' s'
unfolding attach_optional_reference
attach_optional_reference-Decided t s t' s' h =
    elim (Bool-cases (str_eq t.reference_external_tx_id "")) [
      | inl blank ↦
          let (same, end) = pure-eq-ok t s (rw blank at h) in
          (rw end refl, rw same (refl, refl, refl, refl))
      | inr given ↦ >>=-elim (if_any (find_reference t)) _ s (rw given at h) λ ref s₁ read h₁.
          let (same, end) = pure-eq-ok (attached t ref) s₁ h₁ in
          (
            rw end (
                read-db (if_any (find_reference t)) s read
                  (if_any-db (find_reference t) s (find_reference-db t s))),
            rw same (attached-Keeps t ref),
          )
    ]

move_unless-Decided :
    (t ref : WagerTransaction) (dir : LedgerDirection) (reversed : Bool) (s : World)
    (t' : WagerTransaction) (d : Decision) (s' : World)
    → (if reversed
          then pure {A = WagerTransaction × Decision} (t, refuse FailureCode.duplicate_reversal)
          else (do t'' ← lift (resolve_reference ref.id t); pure (t'', move dir)))
        s
      ≡ (ok (t', d), s')
    → Decided t s t' s'
move_unless-Decided t ref dir true s t' d s' h = ground arith
move_unless-Decided t ref dir false s t' d s' h = lift-elim _ _ s h λ t₁ resolved h₁.
    let (is, last) = pure-eq-ok (t₁, move dir) s h₁ in
    (rw last refl, rw (ap (λ x. x.0) is) (resolve_reference-Keeps ref.id t t₁ resolved))

decide_direction-Decided :
    (t ref : WagerTransaction) (o : Option LedgerDirection) (s : World) (t' : WagerTransaction)
    (d : Decision) (s' : World)
    → decide_direction t ref o s ≡ (ok (t', d), s')
    → Decided t s t' s'
decide_direction-Decided t ref none s t' d s' h = ground arith
decide_direction-Decided t ref (some dir) s t' d s' h =
    >>=-elim (has_successful_reversal ref.id) _ s h λ reversed s₁ read h₁.
      let (end, same) = move_unless-Decided t ref dir reversed s₁ t' d s' h₁ in
      (
        end ∙ read-db (has_successful_reversal ref.id) s read (has_successful_reversal-db ref.id s),
        same,
      )

fitting-Decided :
    (t ref : WagerTransaction) (misfit : Bool) (o : Option LedgerDirection) (s : World)
    (t' : WagerTransaction) (d : Decision) (s' : World)
    → (if misfit
          then pure {A = WagerTransaction × Decision} (t, refuse FailureCode.reference_mismatch)
          else decide_direction t ref o)
        s
      ≡ (ok (t', d), s')
    → Decided t s t' s'
fitting-Decided t ref true o s t' d s' h = ground arith
fitting-Decided t ref false o s t' d s' h = decide_direction-Decided t ref o s t' d s' h

decide_found-Decided :
    (t ref : WagerTransaction) (st : Status) (s : World) (t' : WagerTransaction) (d : Decision)
    (s' : World)
    → decide_found t ref st s ≡ (ok (t', d), s')
    → Decided t s t' s'
decide_found-Decided t ref Status.pending s t' d s' h = ground arith
decide_found-Decided t ref Status.pending_reference s t' d s' h = ground arith
decide_found-Decided t ref Status.rejected s t' d s' h = ground arith
decide_found-Decided t ref Status.failed s t' d s' h = ground arith
decide_found-Decided t ref Status.processed s t' d s' h = fitting-Decided t ref _ _ s t' d s' h
decide_found-Decided t ref (Status.other o) s t' d s' h = fitting-Decided t ref _ _ s t' d s' h

decide_reference-Decided :
    (t : WagerTransaction) (o : Option WagerTransaction) (s : World) (t' : WagerTransaction)
    (d : Decision) (s' : World)
    → decide_reference t o s ≡ (ok (t', d), s')
    → Decided t s t' s'
decide_reference-Decided t none s t' d s' h = ground arith
decide_reference-Decided t (some ref) s t' d s' h =
    decide_found-Decided t ref ref.status s t' d s' h

pub decide_reversal-Decided :
    (t : WagerTransaction) (s : World) (t' : WagerTransaction) (d : Decision) (s' : World)
    → decide_reversal t s ≡ (ok (t', d), s')
    → Decided t s t' s'
unfolding decide_reversal
decide_reversal-Decided t s t' d s' h =
    >>=-elim (optional (find_reference t)) _ s h λ ref s₁ read h₁.
      let (end, same) = decide_reference-Decided t ref s₁ t' d s' h₁ in
      (
        end
            ∙ read-db (optional (find_reference t)) s read
                (optional-db (find_reference t) s (find_reference-db t s)),
        same,
      )

decide_kind-Decided :
    (t : WagerTransaction) (k : Kind) (s : World) (t' : WagerTransaction) (d : Decision)
    (s' : World)
    → decide_kind t k s ≡ (ok (t', d), s')
    → Decided t s t' s'
decide_kind-Decided t Kind.bet s t' d s' h = ground arith
decide_kind-Decided t Kind.win s t' d s' h =
    >>=-elim (attach_optional_reference t) _ s h λ t₁ s₁ read h₁.
      let (end, same) = attach_optional_reference-Decided t s t₁ s₁ read in
      let (is, last) = pure-eq-ok (t₁, move credit) s₁ h₁ in
      (rw last end, rw (ap (λ x. x.0) is) same)
decide_kind-Decided t Kind.loss s t' d s' h = ground arith
decide_kind-Decided t Kind.refund s t' d s' h = decide_reversal-Decided t s t' d s' h
decide_kind-Decided t Kind.rollback s t' d s' h = decide_reversal-Decided t s t' d s' h
decide_kind-Decided t Kind.opening s t' d s' h = cc
decide_kind-Decided t (Kind.other o) s t' d s' h = cc

-- A decision that is returned without an error has changed no table, and neither the amount nor the
-- id, the wallet or the kind of the transaction.
pub decide-Decided :
    (t : WagerTransaction) (w : Wallet) (s : World) (t' : WagerTransaction) (d : Decision)
    (s' : World)
    → decide t w s ≡ (ok (t', d), s')
    → Decided t s t' s'
unfolding decide
decide-Decided t w s t' d s' h = elim (Bool-cases (str_eq t.money.currency w.currency)) [
  | inl same ↦ decide_kind-Decided t t.kind s t' d s' (rw same at h)
  | inr differs ↦ ground (arith, differs)
]
