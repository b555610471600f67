-- ===== src/App/Decide/Unreversed.antt =====
-- internal/app/process_wager.go: what `decide` has processed as a reversal of a transaction is the first
-- successful one.
use jungle.Base.{
  ◌≡◌, refl, arith, ap, sym, ◌∙◌, Bool, true, false, ==_iff, inl, inr, Bool-cases, str_eq,
}
use jungle.Values.{Uuid}
use jungle.Result.{ok}
use jungle.Wallet.{Wallet}
use jungle.Wagertx.{WagerTransaction}
use jungle.Wagertx.Constants.{Kind, requires_reference}
use jungle.Store.Action.{World}
use jungle.Store.Action.Laws.{>>=-elim, pure-eq-ok}
use jungle.Store.Transactions.{uuid_column_is, null_uuid, has_identity}
use jungle.Store.Effects.{scan_one-db}
use jungle.Store.Reversals.{reversals, has_successful_reversal-false}
use jungle.App.Decide.{
  Decision, DecisionKind, decide, decide_kind, decide_reversal, find_reference, optional,
  attach_optional_reference,
}
use jungle.App.ProcessWager.Reads.{read-db, optional-db, attach_optional_reference-Decided}
use jungle.App.ProcessWager.Reversal.{decide_reversal-Checks}
use jungle.App.Settle.Reversals.{processes, decided_reversal}

-- What the decision has the transaction reverse is not reversed yet.
abbrev pub IsFirst : (Kind → Bool) → WagerTransaction → Decision → World → Type 0
IsFirst can t d s =
    (id : Uuid) → decided_reversal can t d.kind id ≡ true → reversals id s.db.transactions ≡ 0

processes-process : (k : DecisionKind) → processes k ≡ true → k ≡ DecisionKind.process
processes-process DecisionKind.process h = refl
processes-process DecisionKind.reject h = cc
processes-process DecisionKind.pending_reference h = cc

named_is : (x id : Uuid) → uuid_column_is (null_uuid x) id ≡ true → x ≡ id
named_is x id h = ground (arith, ==_iff x id)

pub decide_reversal-IsFirst :
    (can : Kind → Bool) (t : WagerTransaction) (s : World) (t' : WagerTransaction) (d : Decision)
    (s' : World)
    → decide_reversal t s ≡ (ok (t', d), s')
    → IsFirst can t' d s
decide_reversal-IsFirst can t s t' d s' h id decided =
    let is_process = processes-process d.kind (ground arith) in
    let named = named_is t'.reference_transaction_id id (ground arith) in
    let (ref, s₁, read, checks) = decide_reversal-Checks t s t' d s' h is_process in
    let same = read-db (optional (find_reference t)) s read (
      optional-db (find_reference t) s
        (scan_one-db (has_identity t.provider_id t.reference_external_tx_id) s)) in
    let own : id ≡ ref.id = sym named ∙ checks.resolved in
    rw (own, ← same) (has_successful_reversal-false ref.id s₁ checks.unreversed)

-- Only refunds and rollbacks are reversals.
other_kind-IsFirst :
    (t : WagerTransaction) (d : Decision) (s : World)
    → requires_reference t.kind ≡ false
    → IsFirst requires_reference t d s
other_kind-IsFirst t d s h id decided = ground (arith, h)

decide_kind-IsFirst :
    (t : WagerTransaction) (k : Kind) (s : World) (t' : WagerTransaction) (d : Decision)
    (s' : World)
    → t.kind ≡ k
    → decide_kind t k s ≡ (ok (t', d), s')
    → IsFirst requires_reference t' d s
unfolding requires_reference
decide_kind-IsFirst t Kind.bet s t' d s' e h =
    let same : t' ≡ t = ground arith in other_kind-IsFirst t' d s (rw (same, e) refl)
decide_kind-IsFirst t Kind.win s t' d s' e h =
    >>=-elim (attach_optional_reference t) _ s h λ t₁ s₁ read h₁.
      let (_, (_, _, _, kind)) = attach_optional_reference-Decided t s t₁ s₁ read in
      let (is, _) = pure-eq-ok (t₁, _) s₁ h₁ in
      let same : t' ≡ t₁ = ap (λ x. x.0) is in other_kind-IsFirst t' d s (rw (same, kind, e) refl)
decide_kind-IsFirst t Kind.loss s t' d s' e h =
    let same : t' ≡ t = ground arith in other_kind-IsFirst t' d s (rw (same, e) refl)
decide_kind-IsFirst t Kind.refund s t' d s' e h =
    decide_reversal-IsFirst requires_reference t s t' d s' h
decide_kind-IsFirst t Kind.rollback s t' d s' e h =
    decide_reversal-IsFirst requires_reference t s t' d s' h
decide_kind-IsFirst t Kind.opening s t' d s' e h = cc
decide_kind-IsFirst t (Kind.other o) s t' d s' e h = cc

pub decide-IsFirst :
    (t : WagerTransaction) (w : Wallet) (s : World) (t' : WagerTransaction) (d : Decision)
    (s' : World)
    → decide t w s ≡ (ok (t', d), s')
    → IsFirst requires_reference t' d s
unfolding decide
decide-IsFirst t w s t' d s' h = elim (Bool-cases (str_eq t.money.currency w.currency)) [
  | inl same ↦ decide_kind-IsFirst t t.kind s t' d s' refl (rw same at h)
  | inr differs ↦ λ id decided. absurd (ground (arith, differs))
]
