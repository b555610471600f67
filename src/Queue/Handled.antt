-- ===== src/Queue/Handled.antt =====
-- internal/queue/consumer.go: what the handling of a message can do to the tables.
use jungle.Base.{
  ◌≡◌, ◌≢◌, ◌⊎◌, refl, arith, Bool, true, false, Option-cases, String, not, Option, some, none,
  List, inl, inr, Bool-cases, str_eq,
}
use jungle.Values.{Uuid, Time}
use jungle.Money.{new_currency, parse_non_negative}
use jungle.Money.Decimal.{Text}
use jungle.Money.Arithmetic.{IsMoney}
use jungle.Money.Bounds.{parse_non_negative-IsMoney}
use jungle.Wagertx.Constants.{is_valid_external}
use jungle.Result.{
  Error, Result, ok, err, permanent, idempotency_conflict, operation_identity_conflict,
  wallet_mismatch, not_found, passed, >>=-eq-ok, ◌>>=◌, fail_if,
}
use jungle.Store.Action.{World}
use jungle.Store.Reconciled.{IsReconciled}
use jungle.App.Settle.{NewIds, ProcessWagerResult}
use jungle.App.ProcessWager.{ProcessWagerCommand, execute}
use jungle.App.ProcessWager.Reconciles.{execute-IsReconciled, execute-err}
use jungle.Http.Dto.{Texts, kind_of}
use jungle.Queue.{
  MessageEnvelope, Fate, delete, dead_lettered, redelivered, is_permanent, classify, or_permanent,
  uuid_of, build_command, classified, classify, process_built, process, fate_of, handle,
}

or_permanent-eq-ok : {A : Type 0} (r : Result A) (a : A) → or_permanent r ≡ ok a → r ≡ ok a
or_permanent-eq-ok (ok x) a h = h
or_permanent-eq-ok (err e) a h = cc

is_permanent-permanent : (e : Error) → is_permanent e ≡ true → e ≡ permanent
is_permanent-permanent permanent h = refl
is_permanent-permanent _ h = cc

-- No error but that of an unprocessable message.
abbrev OnlyPermanent : {A : Type 0} → Result A → Type 0
OnlyPermanent r = (e : Error) → r ≡ err e → e ≡ permanent

-- A chain whose steps have only that error.
bind-permanent :
    {A B : Type 0} (r : Result A) (f : A → Result B) {e : Error}
    → (r >>= f) ≡ err e
    → OnlyPermanent r
    → ((a : A) → f a ≡ err e → e ≡ permanent)
    → e ≡ permanent
bind-permanent (ok a) f h p q = q a h
bind-permanent (err x) f {e = e} h p q = p e cc

OnlyPermanent-fail_if : (c : Bool) → OnlyPermanent (fail_if c permanent)
OnlyPermanent-fail_if true e h = cc
OnlyPermanent-fail_if false e h = cc

OnlyPermanent-or_permanent : {A : Type 0} (r : Result A) → OnlyPermanent (or_permanent r)
OnlyPermanent-or_permanent (ok a) e h = cc
OnlyPermanent-or_permanent (err x) e h = cc

module _ (texts : Texts) (digest : List (String × Text) → String) (consumer : String) (ids : NewIds)
    (now : Time) (fresh : Uuid) where
  pub build_command-IsMoney :
      (m : MessageEnvelope) (cmd : ProcessWagerCommand)
      → build_command texts digest consumer ids now fresh m ≡ ok cmd
      → IsMoney cmd.money
  unfolding build_command
  build_command-IsMoney m cmd h =
      let (_, h₁) = passed (str_eq m.data_of.idempotency_key "") permanent _ h in
      let (player, _, h₂) =
        >>=-eq-ok (uuid_of texts digest consumer ids now fresh m.data_of.player_id) _ h₁ in
      let (wallet, _, h₃) =
        >>=-eq-ok (uuid_of texts digest consumer ids now fresh m.data_of.wallet_id) _ h₂ in
      let (_, h₄) = passed (not (is_valid_external (kind_of m.data_of.kind))) permanent _ h₃ in
      let (c, _, h₅) = >>=-eq-ok (or_permanent (new_currency m.data_of.money.currency)) _ h₄ in
      let (amount, parsed, h₆) =
        >>=-eq-ok (or_permanent (parse_non_negative m.data_of.money.amount c)) _ h₅ in
      let same : cmd.money ≡ amount = cc in
      rw same (
        parse_non_negative-IsMoney m.data_of.money.amount c amount
          (or_permanent-eq-ok _ amount parsed))

  uuid_of-OnlyPermanent :
      (raw : String) → OnlyPermanent (uuid_of texts digest consumer ids now fresh raw)
  uuid_of-OnlyPermanent raw e h = elim (Option-cases (texts.parse_uuid raw)) [
    | inl bad ↦ ground (arith, bad)
    | inr (id, good) ↦ absurd (ground (arith, good))
  ]

  build_command-permanent :
      (m : MessageEnvelope) → OnlyPermanent (build_command texts digest consumer ids now fresh m)
  unfolding build_command
  build_command-permanent m e h =
      bind-permanent (fail_if (str_eq m.data_of.idempotency_key "") permanent) _ h
        (OnlyPermanent-fail_if (str_eq m.data_of.idempotency_key ""))
        λ _ h₁.
          bind-permanent (uuid_of texts digest consumer ids now fresh m.data_of.player_id) _ h₁
            (uuid_of-OnlyPermanent m.data_of.player_id)
            λ player h₂.
              bind-permanent (uuid_of texts digest consumer ids now fresh m.data_of.wallet_id) _ h₂
                (uuid_of-OnlyPermanent m.data_of.wallet_id)
                λ wallet h₃.
                  bind-permanent
                    (fail_if (not (is_valid_external (kind_of m.data_of.kind))) permanent) _ h₃
                    (OnlyPermanent-fail_if (not (is_valid_external (kind_of m.data_of.kind))))
                    λ _ h₄.
                      bind-permanent (or_permanent (new_currency m.data_of.money.currency)) _ h₄
                        (OnlyPermanent-or_permanent (new_currency m.data_of.money.currency))
                        λ currency h₅.
                          bind-permanent
                            (or_permanent (parse_non_negative m.data_of.money.amount currency)) _ h₅
                            (OnlyPermanent-or_permanent
                              (parse_non_negative m.data_of.money.amount currency))
                            λ amount h₆. absurd cc

  -- The operation of a message was executed with success.
  abbrev pub IsExecuted : Option MessageEnvelope → World → World → Type 0
  IsExecuted body s s' =
      (m : MessageEnvelope) × (cmd : ProcessWagerCommand) × (r : ProcessWagerResult) × (body
        ≡ some m)
      × (build_command texts digest consumer ids now fresh m ≡ ok cmd)
      × (execute ids now cmd s ≡ (ok r, s'))

  -- The body cannot be read, has no message id, or gives no command.
  abbrev pub IsUnreadable : Option MessageEnvelope → Type 0
  IsUnreadable body =
      (body ≡ none)
      ⊎ ((m : MessageEnvelope) × (body ≡ some m)
          × ((str_eq m.message_id "" ≡ true)
              ⊎ ((e : Error) × (build_command texts digest consumer ids now fresh m ≡ err e))))

  -- The operation of a message was executed, and failed.
  abbrev pub HasFailed : Option MessageEnvelope → Error → World → World → Type 0
  HasFailed body e s s' =
      (m : MessageEnvelope) × (cmd : ProcessWagerCommand) × (body ≡ some m)
      × (build_command texts digest consumer ids now fresh m ≡ ok cmd)
      × (execute ids now cmd s ≡ (err e, s'))

  -- The errors of `Execute` that no other delivery can mend.
  abbrev pub IsLasting : Error → Type 0
  IsLasting e =
      (e ≡ idempotency_conflict)
      ⊎ (e ≡ operation_identity_conflict)
      ⊎ (e ≡ wallet_mismatch)
      ⊎ (e ≡ not_found)
      ⊎ (e ≡ permanent)

  -- What the result of `process` means: success, a message that is unprocessable for good, or a
  -- failure that may pass. Both failures have changed no table.
  abbrev Means : Option MessageEnvelope → World → Result (Unit {0}) × World → Type 0
  Means body s (ok _, s') = IsExecuted body s s'
  Means body s (err e, s') =
      (s'.db ≡ s.db)
      × (((e ≡ permanent)
            × (IsUnreadable body ⊎ ((x : Error) × IsLasting x × HasFailed body x s s')))
          ⊎ ((e ≢ permanent) × (IsLasting e → ⊥) × HasFailed body e s s'))

  classify-cases :
      (e : Error)
      → ((classify texts digest consumer ids now fresh e ≡ permanent) × IsLasting e)
        ⊎ ((classify texts digest consumer ids now fresh e ≡ e)
            × (e ≢ permanent)
            × (IsLasting e → ⊥))
  classify-cases idempotency_conflict = inl (refl, inl refl)
  classify-cases operation_identity_conflict = inl (refl, inr (inl refl))
  classify-cases wallet_mismatch = inl (refl, inr (inr (inl refl)))
  classify-cases not_found = inl (refl, inr (inr (inr (inl refl))))
  classify-cases permanent = inl (refl, inr (inr (inr (inr refl))))
  classify-cases _ = inr (refl, λ x. cc, λ l. ground arith)

  process-Means :
      (body : Option MessageEnvelope) (s : World)
      → Means body s (process texts digest consumer ids now fresh body s)
  unfolding process
  process-Means none s = (refl, inl (refl, inl (inl refl)))
  process-Means (some m) s = elim (Bool-cases (str_eq m.message_id "")) [
    | inl missing ↦ rw missing (refl, inl (refl, inl (inr (m, refl, inl missing))))
    | inr given ↦ rw given (built (build_command texts digest consumer ids now fresh m) refl)
  ]
    where
      executed :
          (cmd : ProcessWagerCommand) (r : Result ProcessWagerResult) (s' : World)
          → build_command texts digest consumer ids now fresh m ≡ ok cmd
          → execute ids now cmd s ≡ (r, s')
          → Means (some m) s (classified texts digest consumer ids now fresh (r, s'))
      executed cmd (ok r) s' b h = (m, cmd, r, refl, b, h)
      executed cmd (err e) s' b h = (
        execute-err ids now cmd s e s' h,
        elim (classify-cases e) [
          | inl (lasts, lasting) ↦ inl (lasts, inr (e, lasting, (m, cmd, refl, b, h)))
          | inr (same, passes, passing) ↦ inr (rw same (passes, passing, (m, cmd, refl, b, h)))
        ],
      )

      built :
          (o : Result ProcessWagerCommand)
          → build_command texts digest consumer ids now fresh m ≡ o
          → Means (some m) s (process_built texts digest consumer ids now fresh o s)
      built (err e) b = (refl, inl (build_command-permanent m e b, inl (inr (m, refl, inr (e, b)))))
      built (ok cmd) b = executed cmd (execute ids now cmd s).0 (execute ids now cmd s).1 b refl

  -- What the fate of a message says of its operation and of the tables.
  abbrev pub Outcome : Bool → Option MessageEnvelope → World → Fate × World → Type 0
  Outcome deletes body s (fate, s') =
      ((fate ≡ delete deletes) × IsExecuted body s s')
      ⊎ ((fate ≡ dead_lettered)
          × (s'.db ≡ s.db)
          × (IsUnreadable body ⊎ ((e : Error) × IsLasting e × HasFailed body e s s')))
      ⊎ ((fate ≡ redelivered)
          × (s'.db ≡ s.db)
          × ((e : Error) × (IsLasting e → ⊥) × HasFailed body e s s'))

  fate_of-Outcome :
      (deletes : Bool) (body : Option MessageEnvelope) (s : World) (r : Result (Unit {0}) × World)
      → Means body s r
      → Outcome deletes body s (fate_of texts digest consumer ids now fresh deletes r.0, r.1)
  fate_of-Outcome deletes body s (ok _, s') h = inl (refl, h)
  fate_of-Outcome deletes body s (err e, s') (same, inl (lasts, why)) =
      inr (inl (rw lasts refl, same, why))
  fate_of-Outcome deletes body s (err e, s') (same, inr (passes, passing, failed)) =
      elim (Bool-cases (is_permanent e)) [
        | inl for_good ↦ absurd (passes (is_permanent-permanent e for_good))
        | inr again ↦ inr (inr (rw again refl, same, (e, passing, failed)))
      ]

  pub handle-Outcome :
      (deletes : Bool) (body : Option MessageEnvelope) (s : World)
      → Outcome deletes body s (handle texts digest consumer ids now fresh deletes body s)
  unfolding handle
  handle-Outcome deletes body s =
      fate_of-Outcome deletes body s (process texts digest consumer ids now fresh body s)
        (process-Means body s)

  -- However a message is handled, reconciled tables stay reconciled.
  pub handle-IsReconciled :
      (deletes : Bool) (body : Option MessageEnvelope) (s : World)
      → IsReconciled s.db
      → IsReconciled (handle texts digest consumer ids now fresh deletes body s).1.db
  handle-IsReconciled deletes body s inv = elim (handle-Outcome deletes body s) [
    | inl (_, (m, cmd, r, _, built, ran)) ↦
        execute-IsReconciled ids now cmd (build_command-IsMoney m cmd built) s r _ inv ran
    | inr (inl (_, same, _)) ↦ rw same inv
    | inr (inr (_, same, _)) ↦ rw same inv
  ]
