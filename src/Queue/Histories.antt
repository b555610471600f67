-- ===== src/Queue/Histories.antt =====
-- internal/queue/consumer.go: however a message is handled, the tables go on as the use case of a
-- wager lets them.
use jungle.Base.{◌≡◌, refl, Bool, String, List, Option, none, some, str_eq}
use jungle.Values.{Uuid, Time}
use jungle.Money.Decimal.{Text}
use jungle.Result.{Result, ok, err, permanent}
use jungle.Store.Action.{World}
use jungle.Store.Action.Histories.{History, Keeps, Keeps-choose}
use jungle.App.Settle.{NewIds, ProcessWagerResult}
use jungle.App.ProcessWager.{ProcessWagerCommand, execute}
use jungle.App.UseCases.{UseCases}
use jungle.Http.Dto.{Texts}
use jungle.Queue.{MessageEnvelope, build_command, classified, process_built, process, handle}
use jungle.Queue.Handled.{build_command-IsMoney}

module _ {H : History} (cases : UseCases H) (texts : Texts) (digest : List (String × Text) → String)
    (consumer : String) (ids : NewIds) (now : Time) (fresh : Uuid) where
  classified-db :
      (r : Result ProcessWagerResult × World)
      → (classified texts digest consumer ids now fresh r).1.db ≡ r.1.db
  classified-db (ok a, s) = refl
  classified-db (err e, s) = refl

  process_built-Keeps :
      (m : MessageEnvelope) (o : Result ProcessWagerCommand)
      → build_command texts digest consumer ids now fresh m ≡ o
      → Keeps H (process_built texts digest consumer ids now fresh o)
  process_built-Keeps m (err e) h = record { at = λ s. H.stay s.db }
  process_built-Keeps m (ok cmd) h =
      let money = build_command-IsMoney texts digest consumer ids now fresh m cmd h in
      record {
        at = λ s.
            rw (classified-db (execute ids now cmd s)) ((cases.executes ids now cmd money).at s);
      }

  process-Keeps :
      (body : Option MessageEnvelope) → Keeps H (process texts digest consumer ids now fresh body)
  unfolding process
  process-Keeps none = record { at = λ s. H.stay s.db }
  process-Keeps (some m) =
      Keeps-choose (str_eq m.message_id "") (λ s. (err permanent, s)) _
        (record { at = λ s. H.stay s.db })
        (process_built-Keeps m (build_command texts digest consumer ids now fresh m) refl)

  pub handle-Keeps :
      (deletes : Bool) (body : Option MessageEnvelope)
      → Keeps H (handle texts digest consumer ids now fresh deletes body)
  unfolding handle
  handle-Keeps deletes body = record { at = (process-Keeps body).at }
