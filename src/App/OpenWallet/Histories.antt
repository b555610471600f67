-- ===== src/App/OpenWallet/Histories.antt =====
-- internal/app/open_wallet.go: the opening of a wallet keeps what every statement keeps.
use jungle.Values.{Uuid, Time}
use jungle.Wallet.{Wallet}
use jungle.Store.Action.Histories.{History, Keeps, Keeps-read}
use jungle.Store.Wallets.{exists_for_player_currency}
use jungle.Store.Effects.{exists_for_player_currency-db}
use jungle.Store.Statements.{Writes, keeps_rules, insert_journal-Keeps, insert_outbox-Keeps}
use jungle.App.OpenWallet.{
  OpenWalletCommand, OpeningIds, record_opening_credit, opening_credit, open_new,
}

module _ {H : History} (writes : Writes H) (ids : OpeningIds) (now : Time) where
  record_opening_credit-Keeps :
      (w : Wallet) (correlation_id : Uuid)
      → Keeps H (record_opening_credit ids now w correlation_id)
  unfolding record_opening_credit
  record_opening_credit-Keeps w correlation_id =
      search
        (
          keeps_rules,
          insert_journal-Keeps writes,
          insert_outbox-Keeps writes,
          writes.transaction,
          writes.ledger,
        )
        depth 30

  opening_credit-Keeps :
      (cmd : OpenWalletCommand) (w : Wallet) → Keeps H (opening_credit ids now cmd w)
  opening_credit-Keeps cmd w = search (keeps_rules, record_opening_credit-Keeps)

  pub open_new-Keeps : (cmd : OpenWalletCommand) → Keeps H (open_new ids now cmd)
  unfolding open_new
  open_new-Keeps cmd =
      search
        (
          keeps_rules,
          Keeps-read (exists_for_player_currency cmd.player_id cmd.initial_balance.currency)
              (exists_for_player_currency-db cmd.player_id cmd.initial_balance.currency),
          writes.wallet,
          opening_credit-Keeps,
        )
        depth 20
