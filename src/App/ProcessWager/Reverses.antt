-- ===== src/App/ProcessWager/Reverses.antt =====
-- internal/app/process_wager.go: what a refund or rollback that moves funds may reverse.
use jungle.Base.{◌≡◌, ◌≢◌, arith, false, ==_iff, some, eq_iff}
use jungle.Int.{eq_of_parts}
use jungle.Money
use jungle.Money.{Money}
use jungle.Result.{Result, ok, err}
use jungle.Wallet.Entry.{LedgerDirection, debit, credit}
use jungle.Wagertx.{WagerTransaction}
use jungle.Wagertx.Constants.{Kind, Status}
use jungle.Store.Tables.{TransactionRow}
use jungle.Store.Action.{World}
use jungle.Store.Transactions.{find_first, scan_one, has_identity, to_domain}
use jungle.Store.Effects.{scan_one-db, scan_one-eq-ok}
use jungle.Store.Reversals.{reversals, has_successful_reversal-false}
use jungle.App.Decide.{
  Decision, DecisionKind, decide_reversal, reversal_direction, mismatches, optional, or_none,
  find_reference,
}
use jungle.App.ProcessWager.Reads.{read-db, optional-db}
use jungle.App.ProcessWager.Reversal.{decide_reversal-Checks}

-- A refund gives back a bet. Any other reversal gives back a bet, or takes back a win or a refund.
pub data Undoes : Kind → Kind → LedgerDirection → Type 0 where
  refunds_bet : Undoes Kind.refund Kind.bet credit
  undoes_bet : {kind : Kind} → kind ≢ Kind.refund → Undoes kind Kind.bet credit
  undoes_win : {kind : Kind} → kind ≢ Kind.refund → Undoes kind Kind.win debit
  undoes_refund : {kind : Kind} → kind ≢ Kind.refund → Undoes kind Kind.refund debit

-- What a reversal has to do with the transaction that it reverses and with the tables.
pub record Reverses (t ref t' : WagerTransaction) (d : Decision) (s : World) : Type 0 where
  pub status :
      (ref.status ≢ Status.pending)
      × (ref.status ≢ Status.pending_reference)
      × (ref.status ≢ Status.rejected)
      × (ref.status ≢ Status.failed)
  pub player : ref.player_id ≡ t.player_id
  pub wallet : ref.wallet_id ≡ t.wallet_id
  pub round : ref.round_id ≡ t.round_id
  pub currency : ref.money.currency ≡ t.money.currency
  pub amount : ref.money.minor_units ≡ t.money.minor_units
  pub direction : Undoes t.kind ref.kind d.direction
  pub unreversed : reversals ref.id s.db.transactions ≡ 0
  pub resolved : t'.reference_transaction_id ≡ ref.id

reversal_direction-Undoes :
    (kind ref : Kind) (dir : LedgerDirection)
    → reversal_direction kind ref ≡ some dir
    → Undoes kind ref dir
unfolding reversal_direction
reversal_direction-Undoes Kind.refund Kind.bet dir h =
    let is : credit ≡ dir = cc in rw (← is) refunds_bet
reversal_direction-Undoes Kind.refund _ dir h = absurd cc
reversal_direction-Undoes _ Kind.bet dir h =
    let is : credit ≡ dir = cc in rw (← is) (undoes_bet λ x. cc)
reversal_direction-Undoes _ Kind.win dir h =
    let is : debit ≡ dir = cc in rw (← is) (undoes_win λ x. cc)
reversal_direction-Undoes _ Kind.refund dir h =
    let is : debit ≡ dir = cc in rw (← is) (undoes_refund λ x. cc)
reversal_direction-Undoes _ _ dir h = absurd cc

mismatches-false :
    (ref t : WagerTransaction)
    → mismatches ref t ≡ false
    → (ref.player_id ≡ t.player_id)
      × (ref.wallet_id ≡ t.wallet_id)
      × (ref.round_id ≡ t.round_id)
      × (ref.money.currency ≡ t.money.currency)
      × (ref.money.minor_units ≡ t.money.minor_units)
unfolding Money.equal
mismatches-false ref t h = (
  ground (arith, h, ==_iff ref.player_id t.player_id),
  ground (arith, h, ==_iff ref.wallet_id t.wallet_id),
  ground (arith, h, eq_iff ref.round_id t.round_id),
  ground (arith, h, eq_iff ref.money.currency t.money.currency),
  eq_of_parts ref.money.minor_units t.money.minor_units (ground (arith, h)),
)

module _ {A : Type 0} where
  or_none-some :
      (r : Result A × World) (a : A) (s' : World) → or_none r ≡ (ok (some a), s') → r ≡ (ok a, s')
  or_none-some (ok x, s) a s' h = ground arith
  or_none-some (err e, s) a s' h = absurd (ground arith)

-- A refund or rollback is decided to be processed only where the transaction that its reference
-- names is stored, and is not pending, awaiting, rejected or failed; has the player, wallet, round,
-- currency and amount of the reversal; is a bet, which is credited, or for another reversal than a
-- refund also a win or a refund, which is debited; and is reversed by no processed transaction yet.
-- The transaction that is saved then has the id of its reference.
pub decide_reversal-Reverses :
    (t : WagerTransaction) (s : World) (t' : WagerTransaction) (d : Decision) (s' : World)
    → decide_reversal t s ≡ (ok (t', d), s')
    → d.kind ≡ DecisionKind.process
    → (row : TransactionRow) × (ref : WagerTransaction) × (find_first
          (has_identity t.provider_id t.reference_external_tx_id)
          s.db.transactions
        ≡ some row)
      × (to_domain row ≡ ok ref)
      × Reverses t ref t' d s
decide_reversal-Reverses t s t' d s' h k =
    let (ref, s₁, read, checks) = decide_reversal-Checks t s t' d s' h k in
    let p = has_identity t.provider_id t.reference_external_tx_id in
    let (row, found, is) = scan_one-eq-ok p s ref s₁ (or_none-some (scan_one p s) ref s₁ read) in
    let same =
      read-db (optional (find_reference t)) s read
        (optional-db (find_reference t) s (scan_one-db p s)) in
    let (player, wallet, round, currency, amount) = mismatches-false ref t checks.fits in
    (
      row,
      ref,
      found,
      is,
      record {
        status = checks.status;
        player = player;
        wallet = wallet;
        round = round;
        currency = currency;
        amount = amount;
        direction = reversal_direction-Undoes t.kind ref.kind d.direction checks.direction;
        unreversed = rw (← same) (has_successful_reversal-false ref.id s₁ checks.unreversed);
        resolved = checks.resolved;
      },
    )
