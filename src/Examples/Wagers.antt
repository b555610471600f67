-- ===== src/Examples/Wagers.antt =====
-- internal/domain/wagertx on concrete transactions.
use jungle.Base.{◌≡◌, ◌↔◌, ◌⊎◌, refl, true, List, [], ◌∷◌}
use jungle.Int.{pos}
use jungle.Result.{ok}
use jungle.Money.{from_minor_units}
use jungle.Wagertx.Constants.{Kind, Status, FailureCode, allowed}
use jungle.Wagertx.{
  WagerTransaction, NewOpeningParams, NewExternalParams, new_opening, new_external, is_terminal,
  opening_of, external_of, rehydrate,
}
use jungle.Wagertx.Lifecycle.{Change, change, run, Edge, run_terminal, allowed_iff, change_edge}
use jungle.Wagertx.Invariant.{
  IsValid, new_external-IsValid, change-IsValid, run-IsValid, stored, rehydrate-stored,
}

abbrev opening_params : NewOpeningParams
opening_params = record {
  id = 1;
  wallet_id = 2;
  player_id = 3;
  money = from_minor_units (pos 500) "BRL";
  now = 9;
}

abbrev refund_params : NewExternalParams
refund_params = record {
  id = 4;
  provider_id = "acme";
  external_transaction_id = "t-4";
  idempotency_key = "k-4";
  payload_hash = "h-4";
  wallet_id = 2;
  player_id = 3;
  round_id = "r-1";
  game_id = "g-1";
  kind = Kind.refund;
  money = from_minor_units (pos 200) "BRL";
  reference_external_transaction_id = "t-1";
  now = 10;
}

abbrev opening : WagerTransaction
opening = opening_of opening_params

abbrev refund : WagerTransaction
refund = external_of refund_params

new_opening-opening : new_opening opening_params ≡ ok opening
unfolding new_opening
new_opening-opening = refl

new_external-refund : new_external refund_params ≡ ok refund
unfolding new_external jungle.Wagertx.Constants.is_valid_external jungle.Wagertx.bad_amount
    jungle.Wagertx.Constants.requires_reference jungle.Wagertx.Constants.allows_reference
new_external-refund = refl

refund-IsValid : IsValid refund
refund-IsValid = new_external-IsValid refund_params refund new_external-refund

-- The refund waits for its reference, is processed, and is then told to fail.
abbrev calls : List Change
calls =
    Change.await 11
    ∷ Change.resolve 1
    ∷ Change.process (from_minor_units (pos 700) "BRL") 12
    ∷ Change.fail FailureCode.infrastructure_failure 13
    ∷ []

run-calls : (run calls refund).status ≡ Status.processed
unfolding run change jungle.Wagertx.Constants.is_no_code allowed
    jungle.Wagertx.Constants.status_is_terminal jungle.Wagertx.Constants.requires_reference
run-calls = refl

run-IsValid_example : IsValid (run calls refund)
run-IsValid_example = run-IsValid calls refund refund-IsValid

opening-is_terminal : is_terminal opening ≡ true
unfolding jungle.Wagertx.Constants.status_is_terminal
opening-is_terminal = refl

run_terminal_example : run calls opening ≡ opening
run_terminal_example = run_terminal calls opening opening-is_terminal

abbrev waiting : WagerTransaction
waiting = record refund { status = Status.pending_reference; updated_at = 11 }

change-waiting : change (Change.await 11) refund ≡ ok waiting
unfolding change jungle.Wagertx.Constants.requires_reference allowed
change-waiting = refl

change-IsValid_example : IsValid waiting
change-IsValid_example =
    change-IsValid (Change.await 11) refund waiting refund-IsValid change-waiting

change_edge_example :
    (Status.pending_reference ≡ Status.pending) ⊎ Edge Status.pending Status.pending_reference
change_edge_example = change_edge (Change.await 11) refund waiting change-waiting

allowed_iff_example :
    (allowed Status.pending Status.processed ≡ true) ↔ Edge Status.pending Status.processed
allowed_iff_example = allowed_iff Status.pending Status.processed

rehydrate-stored_example : rehydrate (stored refund) ≡ ok refund
rehydrate-stored_example = rehydrate-stored refund refund-IsValid
