-- ===== src/Examples/Journals.antt =====
-- internal/domain/journal on a concrete journal.
use jungle.Base.{◌≡◌, refl, arith, ◌++◌, List, []}
use jungle.Int.{pos}
use jungle.Result.{ok}
use jungle.Money.{from_minor_units}
use jungle.Journal.{
  Entry, MovementParams, wallet_account, provider_account, entries_of, new_movement, balance,
  assert_balanced,
}
use jungle.Journal.Balanced.{Movements, start, record_next, Movements-balance}

abbrev bet : MovementParams
bet = record {
  transaction_id = 7;
  from = wallet_account 1;
  to = provider_account "acme";
  amount = from_minor_units (pos 200) "BRL";
  now = 10;
}

abbrev entries : List Entry
entries = entries_of 11 12 bet

new_movement-bet : new_movement 11 12 bet ≡ ok entries
unfolding new_movement jungle.Journal.account_eq
new_movement-bet = refl

entries-Movements : Movements ([] ++ entries)
entries-Movements = record_next 11 12 bet entries start (omega arith) new_movement-bet

Movements-balance_example : balance ([] ++ entries) ≡ pos 0
Movements-balance_example = Movements-balance {es = [] ++ entries} entries-Movements
