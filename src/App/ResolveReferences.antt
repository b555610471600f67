-- ===== src/App/ResolveReferences.antt =====
-- internal/app/resolve_references.go: reversals that await their reference are tried again, until
-- they are settled or abandoned. Logs and metrics are left out.
pub mod Reconciles
pub mod Run
pub mod Reversals
pub mod Count
pub mod Settled
pub mod Exhausted
pub mod Histories
use jungle.Base.{ℕ, Bool, true, false, not, ◌||◌, none, List, [], ◌∷◌, ◌+◌, if◌then◌else◌}
use jungle.Values.{Uuid, Time}
use jungle.Int.{ℤ, pos, ltb_ℤ, leb_ℤ}
use jungle.Wallet.{Wallet}
use jungle.Event.{Meta, new_rejected}
use jungle.Wagertx.{WagerTransaction, mark_failed}
use jungle.Wagertx.Constants.{FailureCode}
use jungle.Result.{Result, ok, err}
use jungle.Store.Action.{Action, World, pure, lift, within, ◌>>=◌, ◌>>◌}
use jungle.Store.Wallets.{get_wallet}
use jungle.Store.Transactions.{get_by_id}
use jungle.Store.TransactionWrites.{update_transaction}
use jungle.Store.Logs.{insert_outbox}
use jungle.Store.References.{
  PendingReferenceRecord, is_awaiting, claim_pending_reference, count_pending_reference,
  record_reference_attempt,
}
use jungle.App.Backoff.{Duration, backoff_for, add_time, sub_time}
use jungle.App.Decide.{Decision, DecisionKind, decide_reversal}
use jungle.App.Settle.{NewIds, reject, settle}

-- `ReferencePolicy`
pub record ReferencePolicy : Type 0 where
  pub max_attempts : ℤ
  pub base_backoff : Duration
  pub max_backoff : Duration
  pub ttl : Duration

-- `DefaultReferencePolicy`, in nanoseconds
abbrev pub default_reference_policy : ReferencePolicy
default_reference_policy = record {
  max_attempts = pos 10;
  base_backoff = pos 2000000000;
  max_backoff = pos 60000000000;
  ttl = pos 900000000000;
}

-- What one record's turn takes from outside: the clock's times, new UUIDs, and whether the context
-- has ended when a failure is to be recorded.
pub record Turn : Type 0 where
  pub now : Time
  pub correlation_id : Uuid
  pub ids : NewIds
  pub is_cancelled : Bool
  pub failed_at : Time
  pub failed_correlation_id : Uuid
  pub failed_event_id : Uuid

abbrev pub meta_at : Uuid → Time → Meta
meta_at correlation_id now = record {
  correlation_id = correlation_id;
  causation_id = none;
  occurred_at = now;
}

module _ (policy : ReferencePolicy) (turn : Turn) (rec : PendingReferenceRecord) where
  abbrev pub is_exhausted : Bool
  is_exhausted =
      leb_ℤ policy.max_attempts (pos (rec.attempts + 1))
      || leb_ℤ policy.ttl (sub_time turn.now rec.first_seen_at)

  abbrev pub try_later : WagerTransaction → Action Bool
  try_later t = do
    record_reference_attempt t.id (rec.attempts + 1) (
        add_time turn.now
          (backoff_for policy.base_backoff policy.max_backoff (pos (rec.attempts + 1))))
    pure false

  abbrev pub give_up : WagerTransaction → Wallet → Action Bool
  give_up t w = do
    reject turn.ids (meta_at turn.correlation_id turn.now) turn.now update_transaction t w
        FailureCode.reference_not_found
    pure true

  abbrev pub carry_out : WagerTransaction → Wallet → Decision → Action Bool
  carry_out t w d = do
    settle turn.ids (meta_at turn.correlation_id turn.now) turn.now update_transaction t w d
    pure true

  abbrev pub settle_decided : WagerTransaction → Wallet → Decision → DecisionKind → Action Bool
  settle_decided t w d DecisionKind.pending_reference =
      if not is_exhausted then try_later t else give_up t w
  settle_decided t w d _ = carry_out t w d

  unfoldable pub settle_awaiting : WagerTransaction → Action Bool
  settle_awaiting t = do
    w ← get_wallet t.wallet_id
    (t', d) ← decide_reversal t
    settle_decided t' w d d.kind

  abbrev pub settle_read : WagerTransaction → Action Bool
  settle_read t = if not (is_awaiting t.status) then pure false else settle_awaiting t

  -- `settleOne`: whether the transaction has moved.
  unfoldable pub settle_one : Action Bool
  settle_one = within (do t ← get_by_id rec.transaction.id; settle_read t)

  unfoldable pub fail_awaiting : WagerTransaction → Action Bool
  fail_awaiting t = do
    t' ← lift (mark_failed FailureCode.infrastructure_failure turn.failed_at t)
    update_transaction t'
    event ←
        lift
          (new_rejected turn.failed_event_id t' (meta_at turn.failed_correlation_id turn.failed_at))
    insert_outbox (event ∷ [])
    pure true

  abbrev pub fail_read : WagerTransaction → Action Bool
  fail_read t = if not (is_awaiting t.status) then pure false else fail_awaiting t

  abbrev pub fail_body : Action Bool
  fail_body = do t ← get_by_id rec.transaction.id; fail_read t

  abbrev pub or_false : Result Bool × World → Result Bool × World
  or_false (ok recorded, s) = (ok recorded, s)
  or_false (err e, s) = (ok false, s)

  -- `recordPermanentFailure`
  unfoldable pub record_permanent_failure : Action Bool
  record_permanent_failure s =
      if turn.is_cancelled
      then pure false s
      else if ltb_ℤ (pos (rec.attempts + 1)) policy.max_attempts
      then pure false s
      else or_false (within fail_body s)

  abbrev pub or_record_failure : Result Bool × World → Result Bool × World
  or_record_failure (ok moved, s) = (ok moved, s)
  or_record_failure (err e, s) = record_permanent_failure s

  -- One turn of the loop of `RunOnce`: whether `settled` grows.
  abbrev pub take_turn : Action Bool
  take_turn s = or_record_failure (settle_one s)

-- `turns` has what each record's turn takes, by its place in the batch.
module _ (policy : ReferencePolicy) (turns : ℕ → Turn) where
  -- The loop of `RunOnce` from the record at place `i` on: the number of those settled.
  unfoldable pub settle_all : ℕ → List PendingReferenceRecord → Action ℕ
  settle_all i [] = pure 0
  settle_all i (rec ∷ due) =
      let rest = settle_all (i + 1) due in
      (do moved ← take_turn policy (turns i) rec; n ← rest; pure (if moved then n + 1 else n))

  abbrev pub batch_size : ℕ
  batch_size = 50

  abbrev pub claim : Time → Action (List PendingReferenceRecord)
  claim now = do count_pending_reference; claim_pending_reference batch_size now

  -- `RunOnce`, begun at `now`
  unfoldable pub run_once : Time → Action ℕ
  run_once now = do due ← within (claim now); settle_all 0 due
