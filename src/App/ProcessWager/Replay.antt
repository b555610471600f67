-- ===== src/App/ProcessWager/Replay.antt =====
-- internal/app/process_wager.go: an operation that is reported again.
use jungle.Base.{
  Bool-cases, inl, inr, ◌≡◌, ◌∙◌, ◌⊎◌, refl, arith, Bool, true, false, not, Option, some, none,
  str_eq, eq_iff, String, [], ◌∷◌, ◌++◌,
}
use jungle.Values.{Time, Uuid}
use jungle.Result.{ok, idempotency_conflict, wallet_mismatch}
use jungle.Wallet.{Wallet}
use jungle.Wagertx.{WagerTransaction, is_terminal}
use jungle.Store.Tables.{Db, TransactionRow, InboxRecord}
use jungle.Store.Action.{World, call, ◌>>=◌}
use jungle.Store.Action.Laws.{call-db, call-cases, >>=-elim, passed, pure-eq-ok, within-ok}
use jungle.Store.Wallets.{get_wallet}
use jungle.Store.Transactions.{
  find_first, scan_one, has_key, has_id, get_by_id, get_by_idempotency_key, to_domain,
}
use jungle.Store.Logs.{get_inbox, find_message}
use jungle.Store.Effects.{scan_one-db, scan_one-eq-ok, get_wallet-db, insert_inbox-db}
use jungle.App.Settle.{NewIds, ProcessWagerResult}
use jungle.App.Decide.{optional}
use jungle.App.ProcessWager.Reads.{read-db}
use jungle.App.ProcessWager.{
  ProcessWagerCommand, fast_replay, replay_found, has_message, replay_result, record_inbox, replay,
  by_key, by_message, message, process, or_process, execute,
}

-- At most a record of the message, with the transaction that was found, is added to the inbox.
abbrev pub IsNoted : ProcessWagerCommand → Uuid → Db → Db → Type 0
IsNoted cmd id before after =
    (after ≡ before)
    ⊎ ((has_message cmd ≡ true)
        × (rec : InboxRecord) × (rec.message_id ≡ cmd.message_id)
        × (rec.payload_hash ≡ cmd.payload_hash)
        × (rec.wager_transaction_id ≡ id)
        × (after ≡ record before { inbox = before.inbox ++ rec ∷ [] }))

-- The answer is the transaction of the message's own record, and nothing has changed.
abbrev pub IsRecorded : ProcessWagerCommand → ProcessWagerResult → Db → Db → Type 0
IsRecorded cmd r before after =
    (rec : InboxRecord) × (row : TransactionRow) × (t : WagerTransaction) × (has_message cmd ≡ true)
    × (find_message cmd.consumer_name cmd.message_id before.inbox ≡ some rec)
    × (rec.payload_hash ≡ cmd.payload_hash)
    × (find_first (has_id rec.wager_transaction_id) before.transactions ≡ some row)
    × (to_domain row ≡ ok t)
    × (r ≡ replay_result t)
    × (after ≡ before)

-- The answer to a command whose key is that of the stored `t`.
abbrev pub Repeats : ProcessWagerCommand → WagerTransaction → ProcessWagerResult → Db → Db → Type 0
Repeats cmd t r before after =
    ((r ≡ replay_result t) × IsNoted cmd t.id before after) ⊎ IsRecorded cmd r before after

-- The database answers with the stored transaction, or fails.
optional-stored :
    (p : TransactionRow → Bool) (s : World) (row : TransactionRow) (t : WagerTransaction)
    (o : Option WagerTransaction) (s' : World)
    → find_first p s.db.transactions ≡ some row
    → to_domain row ≡ ok t
    → optional (scan_one p) s ≡ (ok o, s')
    → (o ≡ some t) × (s'.db ≡ s.db)
unfolding scan_one ◌>>=◌
optional-stored p s row t o s' found is h =
    let same : find_first p (call s).1.db.transactions ≡ some row = rw (call-db s) found in
    elim (call-cases s) [
      | inl answered ↦
          (ground (arith, answered, same, is, h), ground (arith, answered, same, is, h, call-db s))
      | inr failed ↦ absurd (ground (arith, failed, h))
    ]

same_text : (a b : String) → not (str_eq a b) ≡ false → a ≡ b
same_text a b h = ground (arith, eq_iff a b)

module _ (cmd : ProcessWagerCommand) (row : TransactionRow) (t : WagerTransaction)
    (is : to_domain row ≡ ok t) where
  -- The key is looked up in these tables.
  abbrev IsStored : World → Type 0
  IsStored s = find_first (has_key cmd.idempotency_key) s.db.transactions ≡ some row

  fast_replay-stored :
      (s : World) (found : Option ProcessWagerResult) (s' : World)
      → IsStored s
      → fast_replay cmd s ≡ (ok found, s')
      → (s'.db ≡ s.db)
        × (t.payload_hash ≡ cmd.payload_hash)
        × ((found ≡ none) ⊎ (found ≡ some (replay_result t)))
  unfolding fast_replay
  fast_replay-stored s found s' stored h =
      >>=-elim (optional (get_by_idempotency_key cmd.idempotency_key)) _ s h λ o s₁ read h₁.
        let (here, same) =
          optional-stored (has_key cmd.idempotency_key) s row t o s₁ stored is read in
        let h₂ : replay_found cmd (some t) s₁ ≡ (ok found, s') = rw here at h₁ in
        let (hash, h₃) = passed _ idempotency_conflict _ s₁ h₂ in
        (
          ground (arith, h₃, same),
          same_text t.payload_hash cmd.payload_hash hash,
          elim (Bool-cases (is_terminal t)) [
            | inl final ↦ elim (Bool-cases (has_message cmd)) [
              | inl given ↦ inl (ground (arith, final, given, h₃))
              | inr silent ↦ inr (ground (arith, final, silent, h₃))
            ]
            | inr waits ↦ inl (ground (arith, waits, h₃))
          ],
        )

  abbrev note_of : Uuid → Time → InboxRecord
  note_of id now = record {
    consumer_name = cmd.consumer_name;
    message_id = cmd.message_id;
    payload_hash = cmd.payload_hash;
    wager_transaction_id = id;
    received_at = now;
    completed_at = now;
  }

  message-read :
      (s : World) (o : Option InboxRecord) (s' : World)
      → message cmd s ≡ (ok o, s')
      → (s'.db ≡ s.db)
        × ((o ≡ none)
            ⊎ ((has_message cmd ≡ true)
                × (find_message cmd.consumer_name cmd.message_id s.db.inbox ≡ o)))
  unfolding get_inbox ◌>>=◌
  message-read s o s' h = elim (Bool-cases (has_message cmd)) [
    | inl given ↦
        (ground (arith, given, h, call-db s), inr (given, ground (arith, given, h, call-db s)))
    | inr silent ↦ (ground (arith, silent, h), inl (ground (arith, silent, h)))
  ]

  module _ (ids : NewIds) (now : Time) where
    replay-IsNoted :
        (s : World) (r : ProcessWagerResult) (s' : World)
        → replay ids now cmd t s ≡ (ok r, s')
        → (r ≡ replay_result t) × IsNoted cmd t.id s.db s'.db
    unfolding replay record_inbox
    replay-IsNoted s r s' h = >>=-elim (record_inbox cmd t.id now) _ s h λ _ s₁ noted h₁.
        let (answer, end) = pure-eq-ok (replay_result t) s₁ h₁ in
        elim (Bool-cases (has_message cmd)) [
          | inl given ↦ (
            answer,
            inr (
              given,
              note_of t.id now,
              refl,
              refl,
              refl,
              rw end (insert_inbox-db (note_of t.id now) s s₁ (rw given at noted)),
            ),
          )
          | inr silent ↦ (answer, inl (ground (arith, silent, noted, end)))
        ]

    by_message-Repeats :
        (w : Wallet) (o : Option InboxRecord) (s : World) (r : ProcessWagerResult) (s' : World)
        → IsStored s
        → (o ≡ none)
          ⊎ ((has_message cmd ≡ true)
              × (find_message cmd.consumer_name cmd.message_id s.db.inbox ≡ o))
        → by_message ids now cmd w o s ≡ (ok r, s')
        → Repeats cmd t r s.db s'.db
    by_message-Repeats w none s r s' stored from h =
        >>=-elim (optional (get_by_idempotency_key cmd.idempotency_key)) _ s h λ o s₁ read h₁.
          let (here, same) =
            optional-stored (has_key cmd.idempotency_key) s row t o s₁ stored is read in
          let h₂ : by_key ids now cmd w (some t) s₁ ≡ (ok r, s') = rw here at h₁ in
          let (_, h₃) = passed _ idempotency_conflict _ s₁ h₂ in
          rw (← same) (inl (replay-IsNoted s₁ r s' h₃))
    by_message-Repeats w (some rec) s r s' stored (inl missing) h = absurd cc
    by_message-Repeats w (some rec) s r s' stored (inr (given, found)) h =
        let (hash, h₁) = passed _ idempotency_conflict _ s h in
        >>=-elim (get_by_id rec.wager_transaction_id) _ s h₁ λ t' s₁ read h₂.
          let (row', there, is') = scan_one-eq-ok (has_id rec.wager_transaction_id) s t' s₁ read in
          let (answer, end) = pure-eq-ok (replay_result t') s₁ h₂ in
          inr (
            rec,
            row',
            t',
            given,
            found,
            same_text rec.payload_hash cmd.payload_hash hash,
            there,
            is',
            answer,
            rw end (
                read-db (get_by_id rec.wager_transaction_id) s read
                  (scan_one-db (has_id rec.wager_transaction_id) s)),
          )

    process-Repeats :
        (s : World) (r : ProcessWagerResult) (s' : World)
        → IsStored s
        → process ids now cmd s ≡ (ok r, s')
        → Repeats cmd t r s.db s'.db
    unfolding process
    process-Repeats s r s' stored h = >>=-elim (get_wallet cmd.wallet_id) _ s h λ w s₁ read h₁.
        let same₁ = read-db (get_wallet cmd.wallet_id) s read (get_wallet-db cmd.wallet_id s) in
        let (_, h₂) = passed _ wallet_mismatch _ s₁ h₁ in
        >>=-elim (message cmd) _ s₁ h₂ λ o s₂ noted h₃.
          let (same₂, from) = message-read s₁ o s₂ noted in
          let same = same₂ ∙ same₁ in
          rw (← same) (by_message-Repeats w o s₂ r s' (rw same stored) (rw (same₂) from) h₃)

    or_process-Repeats :
        (found : Option ProcessWagerResult) (s : World) (r : ProcessWagerResult) (s' : World)
        → IsStored s
        → (found ≡ none) ⊎ (found ≡ some (replay_result t))
        → or_process ids now cmd found s ≡ (ok r, s')
        → Repeats cmd t r s.db s'.db
    or_process-Repeats none s r s' stored o h =
        let (s₁, s₂, begin, ran, end) = within-ok (process ids now cmd) s r s' h in
        rw (end, ← begin) (process-Repeats s₁ r s₂ (rw begin stored) ran)
    or_process-Repeats (some x) s r s' stored (inl missing) h = absurd cc
    or_process-Repeats (some x) s r s' stored (inr here) h =
        inl (ground (arith, here, h), inl (ground (arith, h)))

-- A command whose key is that of a stored transaction, which can be read, succeeds only with that
-- transaction's payload hash. Its answer is then the stored transaction as a replay, and nothing has
-- changed but that the inbox may have a record of the command's message that names it; or the
-- message was recorded in the inbox before, with the same payload hash, and the answer is the stored
-- transaction of that record as a replay, and nothing has changed.
pub execute-replay :
    (ids : NewIds) (now : Time) (cmd : ProcessWagerCommand) (s : World) (row : TransactionRow)
    (t : WagerTransaction) (r : ProcessWagerResult) (s' : World)
    → find_first (has_key cmd.idempotency_key) s.db.transactions ≡ some row
    → to_domain row ≡ ok t
    → execute ids now cmd s ≡ (ok r, s')
    → (t.payload_hash ≡ cmd.payload_hash) × Repeats cmd t r s.db s'.db
unfolding execute
execute-replay ids now cmd s row t r s' stored is h =
    >>=-elim (fast_replay cmd) _ s h λ found s₁ read h₁.
      let (same, hash, o) = fast_replay-stored cmd row t is s found s₁ stored read in
      (
        hash,
        rw (← same) (or_process-Repeats cmd row t is ids now found s₁ r s' (rw same stored) o h₁),
      )
