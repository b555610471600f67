-- ===== src/App/OpenWallet/Reversals.antt =====
-- internal/app/open_wallet.go: an opening reverses nothing.
use jungle.Base.{◌≡◌, refl, arith, ap, ◌∙◌, true, inl, inr, Bool-cases}
use jungle.Values.{Uuid, Time}
use jungle.Result.{ok}
use jungle.Money.{is_zero}
use jungle.Wallet.{Wallet}
use jungle.Wagertx.{WagerTransaction, NewOpeningParams, new_opening}
use jungle.Wagertx.Constants.{requires_reference}
use jungle.Store.Action.{World}
use jungle.Store.Action.Laws.{>>=-elim, lift-elim, pure-eq-ok, passed}
use jungle.Result.{wallet_already_exists}
use jungle.Store.Wallets.{exists_for_player_currency}
use jungle.Store.Transactions
use jungle.Store.Transactions.{is_reversal_of}
use jungle.Store.Effects.{exists_for_player_currency-db, insert_wallet-db}
use jungle.Store.Reversals.{
  IsReversedOnce, IsReversedOnce-Adds, Adds, Adds-same, Adds-weaken, reversals-append,
}
use jungle.App.Settle.Reversals.{no_reversal}
use jungle.App.ProcessWager.Reads.{read-db}
use jungle.App.OpenWallet.{OpenWalletCommand, OpeningIds, open_new, opening_credit, opening_params}
use jungle.App.OpenWallet.Opened.{record_opening_credit-Credited}

opening-reverses_nothing :
    (p : NewOpeningParams) (t : WagerTransaction) (now : Time) (id : Uuid)
    → new_opening p ≡ ok t
    → is_reversal_of id (Transactions.row_of now t) ≡ true
    → no_reversal id ≡ true
unfolding new_opening Transactions.row_of requires_reference
opening-reverses_nothing p t now id made h = ground arith

module _ (ids : OpeningIds) (now : Time) where
  opening_credit-Adds :
      (cmd : OpenWalletCommand) (w : Wallet) (s s' : World)
      → opening_credit ids now cmd w s ≡ (ok tt, s')
      → Adds no_reversal s.db s'.db
  opening_credit-Adds cmd w s s' h = elim (Bool-cases (is_zero cmd.initial_balance)) [
    | inl empty ↦
        let (_, end) = pure-eq-ok tt s (rw empty at h) in
        Adds-same no_reversal s.db s'.db (rw end refl)
    | inr held ↦
        let c = record_opening_credit-Credited ids now w cmd.correlation_id s s' (rw held at h) in
        let row = Transactions.row_of c.db_now c.transaction in
        Adds-weaken (λ id. is_reversal_of id row) no_reversal s.db s'.db
          (λ id.
            opening-reverses_nothing (opening_params ids now w) c.transaction c.db_now id
              c.is_opening)
          λ id. rw (ap (λ x. x.transactions) c.written) (reversals-append id s.db.transactions row)
  ]

  pub open_new-IsReversedOnce :
      (cmd : OpenWalletCommand) (s : World) (w : Wallet) (s' : World)
      → IsReversedOnce s.db
      → open_new ids now cmd s ≡ (ok w, s')
      → IsReversedOnce s'.db
  unfolding open_new
  open_new-IsReversedOnce cmd s w s' once h =
      let look = exists_for_player_currency cmd.player_id cmd.initial_balance.currency in
      >>=-elim look _ s h λ exists s₁ read h₁.
        let (_, h₂) = passed exists wallet_already_exists _ s₁ h₁ in
        lift-elim _ _ s₁ h₂ λ w₁ made h₃. >>=-elim _ _ s₁ h₃ λ _ s₂ inserted h₄.
          >>=-elim _ _ s₂ h₄ λ _ s₃ credited h₅.
            let (_, end) = pure-eq-ok w₁ s₃ h₅ in
            let (_, d) = insert_wallet-db w₁ s₁ s₂ inserted in
            let start : s₁.db ≡ s.db =
              read-db look s read
                (exists_for_player_currency-db cmd.player_id cmd.initial_balance.currency s) in
            let same = ap (λ x. x.transactions) d ∙ ap (λ x. x.transactions) start in
            rw end (
              IsReversedOnce-Adds no_reversal s₂.db s₃.db
                (opening_credit-Adds cmd w₁ s₂ s₃ credited) (λ id no. cc) (λ id. rw same (once id)))
