-- ===== src/Examples/Replays.antt =====
-- internal/app/process_wager.go: a bet that is stored is reported again by a message.
use jungle.Base.{◌≡◌, refl, some}
use jungle.Result.{ok}
use jungle.Store.Transactions
use jungle.Store.Transactions.{find_first, has_key, to_domain}
use jungle.App.ProcessWager.{ProcessWagerCommand, execute, replay_result}
use jungle.App.ProcessWager.Replay.{Repeats, execute-replay}
use jungle.Examples.Executions.{ids, bet, done, after}

abbrev resent : ProcessWagerCommand
resent = record bet { consumer_name = "wagers"; message_id = "m-1" }

to_domain-done : to_domain (Transactions.row_of 50 done) ≡ ok done
unfolding to_domain jungle.Wagertx.rehydrate Transactions.row_of jungle.Wagertx.Constants.is_no_code
to_domain-done = refl

find-done : find_first (has_key "k-1") after.db.transactions ≡ some (Transactions.row_of 50 done)
unfolding find_first Transactions.row_of
find-done = refl

execute-resent :
    execute ids 99 resent after ≡ (ok (replay_result done), (execute ids 99 resent after).1)
unfolding jungle.Store.Action.◌>>=◌ jungle.Store.Action.call jungle.Store.Action.within
    jungle.Store.Wallets.find_wallet jungle.Store.Wallets.get_wallet
    jungle.Store.Transactions.find_first jungle.Store.Transactions.scan_one
    jungle.Store.Transactions.row_of jungle.Store.Transactions.to_domain jungle.Store.Logs.get_inbox
    jungle.Store.Logs.find_message jungle.Store.Logs.insert_inbox jungle.Wagertx.rehydrate
    jungle.Wagertx.Constants.status_is_terminal jungle.Wagertx.Constants.is_no_code
    jungle.Wallet.rehydrate_wallet jungle.App.ProcessWager.fast_replay
    jungle.App.ProcessWager.record_inbox jungle.App.ProcessWager.replay
    jungle.App.ProcessWager.process jungle.App.ProcessWager.execute Transactions.has_row
execute-resent = refl

execute-replay_example :
    (done.payload_hash ≡ resent.payload_hash)
    × Repeats resent done (replay_result done) after.db (execute ids 99 resent after).1.db
execute-replay_example =
    execute-replay ids 99 resent after (Transactions.row_of 50 done) done (replay_result done)
      (execute ids 99 resent after).1 find-done to_domain-done execute-resent
