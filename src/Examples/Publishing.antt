-- ===== src/Examples/Publishing.antt =====
-- internal/app/publish_outbox.go on a concrete outbox: one event that was accepted at once.
use jungle.Base.{◌≤◌, ◌*◌, [], ◌∷◌, some, true, false}
use jungle.Int.{pos}
use jungle.Money.{from_minor_units}
use jungle.Wallet.Entry.{LedgerDirection}
use jungle.Event.{Envelope, EventType, balance_changed_data, text_of}
use jungle.Store.Action.{World}
use jungle.Store.Logs.{outbox_row}
use jungle.Store.Outbox.History.{AllFollow}
use jungle.App.PublishOutbox.{Surroundings, default_publish_policy, run_once}
use jungle.App.PublishOutbox.Safety.{Accepted, run_once-AllFollow}
use jungle.App.PublishOutbox.Count.{run_once-le}
use jungle.Examples.Executions.{tables}

abbrev changed : Envelope
changed = record {
  event_id = 25;
  event_type = EventType.balance_changed;
  aggregate_id = text_of 1;
  correlation_id = 30;
  causation_id = some 20;
  occurred_at = 60;
  version = 1;
  payload = balance_changed_data (record {
    wallet_id = text_of 1;
    transaction_id = text_of 20;
    direction = LedgerDirection.debit;
    money = from_minor_units (pos 200) "BRL";
    balance_before = from_minor_units (pos 500) "BRL";
    balance_after = from_minor_units (pos 300) "BRL";
    wallet_version = pos 2;
    changed_at = 60;
  });
}

abbrev full_outbox : World
full_outbox = record {
  db = record tables { outbox = outbox_row changed ∷ [] };
  db_now = 70;
  faults = [];
}

abbrev accepting : Surroundings
accepting = record {
  accepts = λ pass i rec. true;
  starts_at = λ pass. 70;
  marks_at = λ pass i. 71;
  ends_before = λ pass i. false;
  ends_after = λ pass. false;
}

run_once-AllFollow_example :
    AllFollow
      (Accepted "relay-1" default_publish_policy accepting)
      full_outbox.db.outbox
      (run_once "relay-1" default_publish_policy accepting full_outbox).1.db.outbox
run_once-AllFollow_example =
    run_once-AllFollow "relay-1" default_publish_policy accepting full_outbox

run_once-le_example :
    (run_once "relay-1" default_publish_policy accepting full_outbox).0.0 ≤ 20 * 100
run_once-le_example = run_once-le "relay-1" default_publish_policy accepting full_outbox
