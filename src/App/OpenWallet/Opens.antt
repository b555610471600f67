-- ===== src/App/OpenWallet/Opens.antt =====
-- internal/app/open_wallet.go: what the opening of a wallet has changed when it succeeds.
use jungle.Base.{
  All-append, ap, sym, ◌∙◌, ◌≡◌, refl, ◌++◌, [], ◌∷◌, List, none, arith, Bool, true, false, ◌==◌,
  if◌then◌else◌, inl, inr, Bool-cases, ==_iff, ◌≢◌,
}
use jungle.Values.{Uuid, Time}
use jungle.Int.{ℤ, pos, ◌+ℤ◌, int_laws, eq_of_parts}
use jungle.Money.{Money, is_zero}
use jungle.Money.Arithmetic.{IsMoney}
use jungle.Wallet.{Wallet, NewWalletParams, new_wallet}
use jungle.Wallet.Entry.{WalletLedgerEntry, credit}
use jungle.Wallet.Entry.Math.{new_ledger_entry_facts}
use jungle.Journal
use jungle.Journal.{new_movement, account_eq}
use jungle.Journal.Balanced.{new_movement_facts}
use jungle.Wagertx.{WagerTransaction, NewOpeningParams, new_opening}
use jungle.Result.{ok, wallet_already_exists}
use jungle.Store.Tables.{Db}
use jungle.Store.Action.{World}
use jungle.Store.Action.Laws.{>>=-elim, lift-elim, pure-eq-ok, passed, within-ok}
use jungle.Store.Wallets
use jungle.Store.Wallets.{exists_for_player_currency, find_wallet}
use jungle.Store.Logs
use jungle.Store.Logs.{credits, debits, counted, is_credit, is_debit, outbox_row, insert_outbox}
use jungle.Store.Effects.{insert_wallet-db, exists_for_player_currency-db}
use jungle.Store.Journals.Sums.{net-movement}
use jungle.Store.Journals.Accounts.{wallet_net-entries_of}
use jungle.Store.Reconciled.Accounts.{IsMatched, AccountsAgree-append}
use jungle.Store.Reconciled.{IsReconciled, credits-append, debits-append}
use jungle.Store.Reconciled.Opening.{opening_of, IsReconciled-open}
use jungle.App.ProcessWager.Reconciles.{row_of-amount}
use jungle.App.ProcessWager.Reads.{read-db}
use jungle.App.OpenWallet.{
  OpenWalletCommand, OpeningIds, wallet_params, opening_params, opening_entry, funding,
  opening_credit, open_new, open_wallet,
}
use jungle.App.OpenWallet.Opened.{record_opening_credit-Credited}

new_wallet-balance :
    (p : NewWalletParams) (w : Wallet) → new_wallet p ≡ ok w → w.balance ≡ p.initial_balance
unfolding new_wallet
new_wallet-balance p w h = ground arith

is_zero-minor_units : (m : Money) → is_zero m ≡ true → m.minor_units ≡ pos 0
is_zero-minor_units m h = ground (arith, eq_of_parts m.minor_units (pos 0))

unchanged : (n : ℤ) → n ≡ n +ℤ pos 0
unchanged n = omega int_laws

zero_plus : (n : ℤ) → pos 0 +ℤ n ≡ n
zero_plus n = omega int_laws

nothing : (b : Bool) (m n : ℤ) → m ≡ pos 0 → n ≡ n +ℤ (if b then m else pos 0)
nothing true m n h = rw h (unchanged n)
nothing false m n h = unchanged n

-- An entry for a wallet counts for it by its amount on its own side, and nowhere else.
opening_counted :
    (id : Uuid) (e : WalletLedgerEntry) (w : Wallet)
    → e.wallet_id ≡ w.id
    → e.direction ≡ credit
    → e.amount ≡ w.balance
    → counted is_credit id (Logs.row_of e) ≡ opening_of (Wallets.row_of w) id
opening_counted id e w owner dir amount = rw (owner, dir, amount) (ground arith)

counted_no_debit :
    (id : Uuid) (e : WalletLedgerEntry)
    → e.direction ≡ credit
    → counted is_debit id (Logs.row_of e) ≡ pos 0
counted_no_debit id e dir = rw dir (ground arith)

-- What the opening of a wallet does to the totals of the ledger: its balance is credited to it, and
-- nothing to another wallet.
abbrev Totals : Wallet → Db → Db → Type 0
Totals w before after =
    (id : Uuid)
    → (credits id after.ledger ≡ credits id before.ledger +ℤ opening_of (Wallets.row_of w) id)
      × (debits id after.ledger ≡ debits id before.ledger)

credited-Totals :
    (before after : Db) (w : Wallet) (e : WalletLedgerEntry)
    → after.ledger ≡ before.ledger ++ Logs.row_of e ∷ []
    → e.wallet_id ≡ w.id
    → e.direction ≡ credit
    → e.amount ≡ w.balance
    → Totals w before after
credited-Totals before after w e ls owner dir amount id = (
  rw (ls, credits-append id before.ledger (Logs.row_of e), opening_counted id e w owner dir amount)
      refl,
  rw (ls, debits-append id before.ledger (Logs.row_of e), counted_no_debit id e dir)
      (sym (unchanged (debits id before.ledger))),
)

new_opening-money :
    (p : NewOpeningParams) (t : WagerTransaction) → new_opening p ≡ ok t → t.money ≡ p.money
unfolding new_opening
new_opening-money p t h = ground arith

module _ (ids : OpeningIds) (now : Time) where
  -- The movement that funds a wallet is matched by the entry that credits it.
  funding-IsMatched :
      (w : Wallet) (t : WagerTransaction) (e : WalletLedgerEntry) (es : List Journal.Entry)
      → e.wallet_id ≡ w.id
      → e.direction ≡ credit
      → e.amount ≡ w.balance
      → new_movement ids.debit_id ids.credit_id (funding ids now t w) ≡ ok es
      → IsMatched es (Logs.row_of e)
  unfolding account_eq
  funding-IsMatched w t e es owner dir amount made id =
      let (is, _, _) =
        new_movement_facts ids.debit_id ids.credit_id (funding ids now t w) es made in
      rw
        (
          is,
          wallet_net-entries_of id ids.debit_id ids.credit_id (funding ids now t w),
          owner,
          dir,
          amount,
        )
        (elim (Bool-cases (w.id == id)) [ inl own ↦ rw own refl | inr foreign ↦ rw foreign refl ])

  opening_credit-IsReconciled :
      (cmd : OpenWalletCommand) (w : Wallet) (before : Db) (s s' : World)
      → IsReconciled before
      → IsMoney w.balance
      → w.balance ≡ cmd.initial_balance
      → find_wallet w.id before.wallets ≡ none
      → s.db ≡ record before { wallets = before.wallets ++ Wallets.row_of w ∷ [] }
      → opening_credit ids now cmd w s ≡ (ok tt, s')
      → IsReconciled s'.db
        × (s'.db.wallets ≡ before.wallets ++ Wallets.row_of w ∷ [])
        × Totals w before s'.db
  opening_credit-IsReconciled cmd w before s s' inv money same fresh start h =
      elim (Bool-cases (is_zero cmd.initial_balance)) [
        | inl empty ↦
            let (_, end) = pure-eq-ok tt s (rw empty at h) in
            let none_held = is_zero-minor_units w.balance (rw same empty) in
            let totals : Totals w before s'.db = λ id. (
              rw (end, start)
                  (nothing (w.id == id) w.balance.minor_units (credits id before.ledger) none_held),
              rw (end, start) refl,
            ) in
            let stored : s'.db.wallets ≡ before.wallets ++ Wallets.row_of w ∷ [] =
              rw (end, start) refl in
            (
              IsReconciled-open before s'.db (Wallets.row_of w) inv fresh stored money
                  (λ id. (totals id).0) (λ id. (totals id).1) (rw (end, start) inv.2)
                  (rw (end, start) inv.3) (rw (end, start) inv.4),
              stored,
              totals,
            )
        | inr held ↦
            let c =
              record_opening_credit-Credited ids now w cmd.correlation_id s s' (rw held at h) in
            let (_, amount, dir, _, owner, _, _) =
              new_ledger_entry_facts (opening_entry ids now c.transaction w) c.entry c.is_entry in
            let stored = ap (λ x. x.wallets) c.written ∙ ap (λ x. x.wallets) start in
            let logged =
              ap (λ x. x.ledger) c.written ∙ ap (λ x. x.ledger ++ Logs.row_of c.entry ∷ []) start in
            let totals = credited-Totals before s'.db w c.entry logged owner dir amount in
            (
              IsReconciled-open before s'.db (Wallets.row_of w) inv fresh stored money
                  (λ id. (totals id).0) (λ id. (totals id).1)
                  (rw (ap (λ x. x.transactions) c.written, ap (λ x. x.transactions) start)
                    (All-append _ before.transactions _ inv.2 (
                      row_of-amount c.db_now c.transaction (
                          rw
                            (new_opening-money (opening_params ids now w) c.transaction
                              c.is_opening)
                            money),
                      tt,
                    )))
                  (rw (ap (λ x. x.journal) c.written, ap (λ x. x.journal) start)
                    (net-movement before.journal c.movement _ _ _ c.is_movement inv.3))
                  (AccountsAgree-append before.journal c.movement _ before.ledger
                    (Logs.row_of c.entry) _
                    (ap (λ x. x.journal) c.written ∙ ap (λ x. x.journal ++ c.movement) start) logged
                    inv.4
                    (funding-IsMatched w c.transaction c.entry c.movement owner dir amount
                      c.is_movement)),
              stored,
              totals,
            )
      ]

  -- What the opening of a wallet has changed.
  pub record Opens (cmd : OpenWalletCommand) (w : Wallet) (before after : Db) : Type 0 where
    pub reconciled : IsReconciled after
    pub balance : w.balance ≡ cmd.initial_balance
    pub fresh : find_wallet w.id before.wallets ≡ none
    pub stored : after.wallets ≡ before.wallets ++ Wallets.row_of w ∷ []
    pub credited : credits w.id after.ledger ≡ w.balance.minor_units
    pub undebited : debits w.id after.ledger ≡ pos 0
    pub others :
        (id : Uuid)
        → id ≢ w.id
        → (credits id after.ledger ≡ credits id before.ledger)
          × (debits id after.ledger ≡ debits id before.ledger)

  Totals-Opens :
      (cmd : OpenWalletCommand) (w : Wallet) (before after : Db)
      → IsReconciled before
      → IsReconciled after
      → w.balance ≡ cmd.initial_balance
      → find_wallet w.id before.wallets ≡ none
      → after.wallets ≡ before.wallets ++ Wallets.row_of w ∷ []
      → Totals w before after
      → Opens cmd w before after
  Totals-Opens cmd w before after inv inv' same fresh stored totals =
      let (no_credits, no_debits) = inv.1 w.id fresh in
      record {
        reconciled = inv';
        balance = same;
        fresh = fresh;
        stored = stored;
        credited = rw ((totals w.id).0, no_credits, own) (zero_plus w.balance.minor_units);
        undebited = (totals w.id).1 ∙ no_debits;
        others = λ id other. (
          rw ((totals id).0, foreign id other) (sym (unchanged (credits id before.ledger))),
          (totals id).1,
        );
      }
    where
      own : (w.id == w.id) ≡ true
      own = (==_iff w.id w.id).1 refl

      foreign : (id : Uuid) → id ≢ w.id → (w.id == id) ≡ false
      foreign id other = elim (Bool-cases (w.id == id)) [
        | inl same ↦ absurd (other (sym ((==_iff w.id id).0 same)))
        | inr differs ↦ differs
      ]

  pub open_new-Opens :
      (cmd : OpenWalletCommand) (s : World) (w : Wallet) (s' : World)
      → IsReconciled s.db
      → IsMoney cmd.initial_balance
      → open_new ids now cmd s ≡ (ok w, s')
      → Opens cmd w s.db s'.db
  unfolding open_new
  open_new-Opens cmd s w s' inv money h =
      >>=-elim (exists_for_player_currency cmd.player_id cmd.initial_balance.currency) _ s h
        λ exists s₁ read h₁.
          let (_, h₂) = passed exists wallet_already_exists _ s₁ h₁ in
          lift-elim _ _ s₁ h₂ λ w₁ made h₃. >>=-elim _ _ s₁ h₃ λ _ s₂ inserted h₄.
            >>=-elim _ _ s₂ h₄ λ _ s₃ credited h₅.
              let (is, end) = pure-eq-ok w₁ s₃ h₅ in
              let same = new_wallet-balance (wallet_params ids now cmd) w₁ made in
              let (fresh, d) = insert_wallet-db w₁ s₁ s₂ inserted in
              let start : s₁.db ≡ s.db =
                read-db (exists_for_player_currency cmd.player_id cmd.initial_balance.currency) s
                  read
                  (exists_for_player_currency-db cmd.player_id cmd.initial_balance.currency s) in
              let (inv', stored, totals) =
                opening_credit-IsReconciled cmd w₁ s₁.db s₂ s₃ (rw start inv) (rw same money) same
                  fresh d credited in
              rw (is, end, ← start)
                (Totals-Opens cmd w₁ s₁.db s₃.db (rw start inv) inv' same fresh stored totals)

  -- The opening of a wallet with an int64 amount, which succeeds on reconciled tables, leaves them
  -- reconciled. It has added one wallet to the others, whose id was new and whose balance is the
  -- amount; the credits of the new wallet in the ledger are that balance, it has no debits, and the
  -- totals of every other wallet are the same.
  pub open_wallet-Opens :
      (cmd : OpenWalletCommand) (s : World) (w : Wallet) (s' : World)
      → IsReconciled s.db
      → IsMoney cmd.initial_balance
      → open_wallet ids now cmd s ≡ (ok w, s')
      → Opens cmd w s.db s'.db
  unfolding open_wallet
  open_wallet-Opens cmd s w s' inv money h =
      let (s₁, s₂, begin, ran, end) = within-ok (open_new ids now cmd) s w s' h in
      rw (end, ← begin) (open_new-Opens cmd s₁ w s₂ (rw begin inv) money ran)
