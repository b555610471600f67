-- ===== src/Store/Reconciled/Accounts.antt =====
-- internal/postgres: the accounts of the wallets in the journal against their ledgers, as a ledger
-- entry and a movement are added.
use jungle.Base.{◌≡◌, ◌++◌, [], ◌∷◌, List}
use jungle.Values.{Uuid}
use jungle.Int.{◌-ℤ◌, int_laws}
use jungle.Journal
use jungle.Store.Tables.{LedgerRow}
use jungle.Store.Logs.{counted, is_credit, is_debit}
use jungle.Store.Journals.Accounts.{wallet_net, wallet_net-append}
use jungle.Store.Reconciled.{AccountsAgree, credits-append, debits-append}

-- The entries move each wallet's account by what the ledger entry counts for that wallet.
abbrev pub IsMatched : List Journal.Entry → LedgerRow → Type 0
IsMatched es entry =
    (id : Uuid) → wallet_net id es ≡ counted is_credit id entry -ℤ counted is_debit id entry

pub AccountsAgree-append :
    (journal es journal' : List Journal.Entry) (ledger : List LedgerRow) (entry : LedgerRow)
    (ledger' : List LedgerRow)
    → journal' ≡ journal ++ es
    → ledger' ≡ ledger ++ entry ∷ []
    → AccountsAgree journal ledger
    → IsMatched es entry
    → AccountsAgree journal' ledger'
AccountsAgree-append journal es journal' ledger entry ledger' js ls agree matched id =
    let before = agree id in
    let added = matched id in
    rw
      (
        js,
        ls,
        wallet_net-append id journal es,
        credits-append id ledger entry,
        debits-append id ledger entry,
        before,
        added,
      )
      (omega int_laws)
