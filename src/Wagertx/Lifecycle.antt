-- ===== src/Wagertx/Lifecycle.antt =====
-- internal/domain/wagertx: the states that a transaction goes through, whatever sequence of its
-- methods is called. A method that returns an error leaves the transaction as it was.
use jungle.Base.{ℕ, ◌<◌, ◌≡◌, ◌⊎◌, ◌↔◌, inl, inr, refl, true, false, List, [], ◌∷◌, arith}
use jungle.Values.{Uuid, Time}
use jungle.Money.{Money}
use jungle.Result.{Result, ok, err}
use jungle.Wagertx.Constants.{
  Status, FailureCode, pending, pending_reference, processed, rejected, failed, allowed,
  status_is_terminal,
}
use jungle.Wagertx.{
  WagerTransaction, is_terminal, transition_to, mark_processed, mark_rejected, mark_failed,
  mark_pending_reference, resolve_reference,
}

-- The methods that change a transaction.
pub data Change : Type 0 where
  process : Money → Time → Change
  reject : FailureCode → Time → Change
  fail : FailureCode → Time → Change
  await : Time → Change
  resolve : Uuid → Change

unfoldable pub change : Change → WagerTransaction → Result WagerTransaction
unfolding mark_processed mark_rejected mark_failed mark_pending_reference resolve_reference
change (process balance now) t = mark_processed balance now t
change (reject code now) t = mark_rejected code now t
change (fail code now) t = mark_failed code now t
change (await now) t = mark_pending_reference now t
change (resolve id) t = resolve_reference id t

-- What the transaction is after the call.
abbrev pub kept : WagerTransaction → Result WagerTransaction → WagerTransaction
kept t (ok t') = t'
kept t (err e) = t

unfoldable pub run : List Change → WagerTransaction → WagerTransaction
run [] t = t
run (c ∷ cs) t = run cs (kept t (change c t))

terminal-allows-nothing : (s next : Status) → status_is_terminal s ≡ true → allowed s next ≡ false
unfolding allowed status_is_terminal
terminal-allows-nothing processed next h = refl
terminal-allows-nothing rejected next h = refl
terminal-allows-nothing failed next h = refl
terminal-allows-nothing _ next h = cc

terminal-unchanged :
    (c : Change) (t : WagerTransaction) → is_terminal t ≡ true → kept t (change c t) ≡ t
unfolding change
terminal-unchanged (process balance now) t h =
    ground (arith, terminal-allows-nothing t.status processed h)
terminal-unchanged (reject code now) t h =
    ground (arith, terminal-allows-nothing t.status rejected h)
terminal-unchanged (fail code now) t h = ground (arith, terminal-allows-nothing t.status failed h)
terminal-unchanged (await now) t h =
    ground (arith, terminal-allows-nothing t.status pending_reference h)
terminal-unchanged (resolve id) t h = ground arith

-- A transaction in a terminal state is final: no sequence of calls changes any field of it.
pub run_terminal : (cs : List Change) (t : WagerTransaction) → is_terminal t ≡ true → run cs t ≡ t
unfolding run
run_terminal [] t h = refl
run_terminal (c ∷ cs) t h = rw (terminal-unchanged c t h) (run_terminal cs t h)

-- How far along its life a status is.
abbrev pub stage : Status → ℕ
stage pending = 0
stage pending_reference = 1
stage processed = 2
stage rejected = 2
stage failed = 2
stage (Status.other s) = 2

-- The transitions of the state diagram.
pub data Edge : Status → Status → Type 0 where
  settle : {s next : Status} → stage s < 2 → status_is_terminal next ≡ true → Edge s next
  park : Edge pending pending_reference

allowed-Edge : (s next : Status) → allowed s next ≡ true → Edge s next
unfolding allowed status_is_terminal
allowed-Edge pending pending h = cc
allowed-Edge pending pending_reference h = park
allowed-Edge pending processed h = settle (omega arith) refl
allowed-Edge pending rejected h = settle (omega arith) refl
allowed-Edge pending failed h = settle (omega arith) refl
allowed-Edge pending (Status.other x) h = cc
allowed-Edge pending_reference processed h = settle (omega arith) refl
allowed-Edge pending_reference rejected h = settle (omega arith) refl
allowed-Edge pending_reference failed h = settle (omega arith) refl
allowed-Edge pending_reference _ h = cc
allowed-Edge _ next h = cc

Edge-allowed : {s next : Status} → Edge s next → allowed s next ≡ true
unfolding allowed status_is_terminal
Edge-allowed (settle {s = s} {next = next} h t) = settles s next h t
  where
    settles :
        (s next : Status) → stage s < 2 → status_is_terminal next ≡ true → allowed s next ≡ true
    settles pending next h t = ground arith
    settles pending_reference next h t = ground arith
    settles _ next h t = absurd (omega arith)
Edge-allowed park = refl

-- `allowedTransitions` is the state diagram: a settled state from either open one, and the way from
-- PENDING to PENDING_REFERENCE.
pub allowed_iff : (s next : Status) → (allowed s next ≡ true) ↔ Edge s next
allowed_iff s next = (allowed-Edge s next, Edge-allowed)

-- A method that returns no error leaves the status as it is or follows an edge of the diagram.
pub change_edge :
    (c : Change) (t t' : WagerTransaction)
    → change c t ≡ ok t'
    → (t'.status ≡ t.status) ⊎ Edge t.status t'.status
unfolding change transition_to
change_edge (process balance now) t t' h =
    let e : t'.status ≡ processed = ground arith in
    inr (rw e (allowed-Edge t.status processed (ground arith)))
change_edge (reject code now) t t' h =
    let e : t'.status ≡ rejected = ground arith in
    inr (rw e (allowed-Edge t.status rejected (ground arith)))
change_edge (fail code now) t t' h =
    let e : t'.status ≡ failed = ground arith in
    inr (rw e (allowed-Edge t.status failed (ground arith)))
change_edge (await now) t t' h =
    let e : t'.status ≡ pending_reference = ground arith in
    inr (rw e (allowed-Edge t.status pending_reference (ground arith)))
change_edge (resolve id) t t' h = inl (ground arith)
