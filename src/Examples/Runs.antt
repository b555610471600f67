-- ===== src/Examples/Runs.antt =====
-- cmd/jungle: a run on concrete tables: a bet, two refunds of it, and the claim of their events.
use jungle.Base.{arith, refl, true, false}
use jungle.Store.Tables.{Db}
use jungle.Store.Action.{World, within}
use jungle.Store.Reconciled.{IsReconciled}
use jungle.Store.Evolution.{Evolves}
use jungle.Store.Unique.{IsUnique}
use jungle.Store.Reversals.{reversals, IsReversedOnce}
use jungle.Wagertx.Constants.{Kind}
use jungle.App.Settle.{NewIds}
use jungle.App.ProcessWager.{ProcessWagerCommand, process}
use jungle.App.PublishOutbox.{Surroundings, default_publish_policy, claim_batch}
use jungle.System.{Run, processed, claimed, here, next}
use jungle.System.Invariants.{Run-IsReconciled, Run-Evolves, Run-IsUnique, Run-IsReversedOnce}
use jungle.Examples.Executions.{ids, bet, tables, world, tables-IsReconciled}

abbrev surroundings : Surroundings
surroundings = record {
  accepts = λ pass i rec. true;
  starts_at = λ pass. 70;
  marks_at = λ pass i. 71;
  ends_before = λ pass i. false;
  ends_after = λ pass. false;
}

abbrev taken : World
taken = (within (process ids 60 bet) world).1

-- Two refunds of the bet, one after the other.
abbrev refund : ProcessWagerCommand
refund = record bet {
  external_transaction_id = "t-2";
  idempotency_key = "k-2";
  kind = Kind.refund;
  reference_external_transaction_id = "t-1";
}

abbrev second : ProcessWagerCommand
second = record refund { external_transaction_id = "t-3"; idempotency_key = "k-3" }

abbrev refund_ids : NewIds
refund_ids = record {
  transaction_id = 40;
  entry_id = 41;
  debit_id = 42;
  credit_id = 43;
  event_id = 44;
  changed_id = 45;
}

abbrev second_ids : NewIds
second_ids = record refund_ids { transaction_id = 50; entry_id = 51; event_id = 54 }

abbrev refunded : World
refunded = (within (process refund_ids 62 refund) taken).1

abbrev refused : World
refused = (within (process second_ids 64 second) refunded).1

abbrev last : Db
last = (within (claim_batch "worker-1" default_publish_policy surroundings 0) refused).1.db

run : Run tables last
run =
    next tables refused.db last
      (next tables refunded.db refused.db
        (next tables taken.db refunded.db
          (next tables tables taken.db (here tables) (processed ids 60 bet world (omega arith)))
          (processed refund_ids 62 refund taken (omega arith)))
        (processed second_ids 64 second refunded (omega arith)))
      (claimed "worker-1" default_publish_policy surroundings 0 refused)

Run-IsReconciled_example : IsReconciled last
Run-IsReconciled_example = Run-IsReconciled tables last run tables-IsReconciled

Run-Evolves_example : Evolves tables last
Run-Evolves_example = Run-Evolves tables last run

tables-IsUnique : IsUnique tables
tables-IsUnique = ((tt, tt, tt, tt), (refl, tt), tt)

Run-IsUnique_example : IsUnique last
Run-IsUnique_example = Run-IsUnique tables last run tables-IsUnique

tables-IsReversedOnce : IsReversedOnce tables
unfolding reversals
tables-IsReversedOnce id = omega arith

Run-IsReversedOnce_example : IsReversedOnce last
Run-IsReversedOnce_example = Run-IsReversedOnce tables last run tables-IsReversedOnce
