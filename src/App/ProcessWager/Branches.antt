-- ===== src/App/ProcessWager/Branches.antt =====
-- internal/app/process_wager.go: what recording the message and processing a new operation keep of the
-- tables, the transaction of `Execute` keeps on each of its branches.
use jungle.Base.{◌≡◌, refl, arith, Option, none, some, inl, inr, Bool-cases}
use jungle.Values.{Uuid, Time}
use jungle.Result.{ok, idempotency_conflict, operation_identity_conflict, wallet_mismatch}
use jungle.Wallet.{Wallet}
use jungle.Wagertx.{WagerTransaction}
use jungle.Store.Tables.{InboxRecord}
use jungle.Store.Action.{World, ◌>>=◌}
use jungle.Store.Action.Laws.{>>=-elim, pure-eq-ok, >>=-db, passed}
use jungle.Store.Wallets.{get_wallet}
use jungle.Store.Transactions.{get_by_id, get_by_idempotency_key, get_by_provider_external_id}
use jungle.Store.Effects.{scan_one-db, get_wallet-db, get_inbox-db}
use jungle.App.Decide.{optional}
use jungle.App.Settle.{ProcessWagerResult, NewIds}
use jungle.App.Settle.Reconciles.{IsStored}
use jungle.App.ProcessWager.{
  ProcessWagerCommand, message, has_message, fast_replay, replay_found, record_inbox, replay,
  process_new, by_identity, by_key, by_message, process, replay_result,
}
use jungle.App.ProcessWager.Reads.{get_wallet-IsStored, optional-db, read-db}
use jungle.Store.Tables.{Db}

replay_found-db :
    (cmd : ProcessWagerCommand) (o : Option WagerTransaction) (s : World)
    → (replay_found cmd o s).1.db ≡ s.db
unfolding ◌>>=◌
replay_found-db cmd none s = refl
replay_found-db cmd (some t) s = ground arith

pub fast_replay-db : (cmd : ProcessWagerCommand) (s : World) → (fast_replay cmd s).1.db ≡ s.db
unfolding fast_replay
fast_replay-db cmd s =
    let lookup = get_by_idempotency_key cmd.idempotency_key in
    >>=-db (optional lookup) (replay_found cmd) s (optional-db lookup s (scan_one-db _ s))
      λ o s₁. replay_found-db cmd o s₁

pub message-db : (cmd : ProcessWagerCommand) (s : World) → (message cmd s).1.db ≡ s.db
message-db cmd s = elim (Bool-cases (has_message cmd)) [
  | inl told ↦ rw told (get_inbox-db cmd.consumer_name cmd.message_id s)
  | inr silent ↦ rw silent refl
]

module _ (P : Db → Type 0) (ids : NewIds) (now : Time) (cmd : ProcessWagerCommand)
    (recorded : (id : Uuid) (s s' : World)
      → P s.db
      → record_inbox cmd id now s ≡ (ok tt, s')
      → P s'.db)
    (created : (w : Wallet) (s : World) (r : ProcessWagerResult) (s' : World)
      → P s.db
      → IsStored cmd.wallet_id w s.db
      → process_new ids now cmd w s ≡ (ok r, s')
      → P s'.db) where
  replay-holds :
      (t : WagerTransaction) (s : World) (r : ProcessWagerResult) (s' : World)
      → P s.db
      → replay ids now cmd t s ≡ (ok r, s')
      → P s'.db
  unfolding replay
  replay-holds t s r s' inv h = >>=-elim _ _ s h λ _ s₁ noted h₁.
      let (_, end) = pure-eq-ok (replay_result t) s₁ h₁ in rw end (recorded t.id s s₁ inv noted)

  by_identity-holds :
      (w : Wallet) (o : Option WagerTransaction) (s : World) (r : ProcessWagerResult) (s' : World)
      → P s.db
      → IsStored cmd.wallet_id w s.db
      → by_identity ids now cmd w o s ≡ (ok r, s')
      → P s'.db
  by_identity-holds w none s r s' inv stored h = created w s r s' inv stored h
  by_identity-holds w (some t) s r s' inv stored h =
      let (_, h₁) = passed _ operation_identity_conflict _ s h in replay-holds t s r s' inv h₁

  by_key-holds :
      (w : Wallet) (o : Option WagerTransaction) (s : World) (r : ProcessWagerResult) (s' : World)
      → P s.db
      → IsStored cmd.wallet_id w s.db
      → by_key ids now cmd w o s ≡ (ok r, s')
      → P s'.db
  by_key-holds w none s r s' inv stored h =
      let lookup = get_by_provider_external_id cmd.provider_id cmd.external_transaction_id in
      >>=-elim (optional lookup) _ s h λ found s₁ read h₁.
        let same = read-db (optional lookup) s read (optional-db lookup s (scan_one-db _ s)) in
        by_identity-holds w found s₁ r s' (rw same inv) (rw same stored) h₁
  by_key-holds w (some t) s r s' inv stored h =
      let (_, h₁) = passed _ idempotency_conflict _ s h in replay-holds t s r s' inv h₁

  by_message-holds :
      (w : Wallet) (o : Option InboxRecord) (s : World) (r : ProcessWagerResult) (s' : World)
      → P s.db
      → IsStored cmd.wallet_id w s.db
      → by_message ids now cmd w o s ≡ (ok r, s')
      → P s'.db
  by_message-holds w none s r s' inv stored h =
      let lookup = get_by_idempotency_key cmd.idempotency_key in
      >>=-elim (optional lookup) _ s h λ found s₁ read h₁.
        let same = read-db (optional lookup) s read (optional-db lookup s (scan_one-db _ s)) in
        by_key-holds w found s₁ r s' (rw same inv) (rw same stored) h₁
  by_message-holds w (some rec) s r s' inv stored h =
      let (_, h₁) = passed _ idempotency_conflict _ s h in
      >>=-elim (get_by_id rec.wager_transaction_id) _ s h₁ λ found s₁ read h₂.
        let (_, end) = pure-eq-ok (replay_result found) s₁ h₂ in
        rw (end, read-db (get_by_id rec.wager_transaction_id) s read (scan_one-db _ s)) inv

  pub process-holds :
      (s : World) (r : ProcessWagerResult) (s' : World)
      → P s.db
      → process ids now cmd s ≡ (ok r, s')
      → P s'.db
  unfolding process
  process-holds s r s' inv h = >>=-elim (get_wallet cmd.wallet_id) _ s h λ w s₁ read h₁.
      let same = read-db (get_wallet cmd.wallet_id) s read (get_wallet-db cmd.wallet_id s) in
      let (_, h₂) = passed _ wallet_mismatch _ s₁ h₁ in
      let stored = get_wallet-IsStored cmd.wallet_id s w s₁ read in
      >>=-elim (message cmd) _ s₁ h₂ λ rec s₂ looked h₃.
        let same₂ = read-db (message cmd) s₁ looked (message-db cmd s₁) in
        by_message-holds w rec s₂ r s' (rw (same₂, same) inv) (rw (same₂, same) stored) h₃
