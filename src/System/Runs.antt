-- ===== src/System/Runs.antt =====
-- internal/app, httpapi and queue: whatever the processes do, what they write comes of a run of
-- transactions.
use jungle.Base.{ℕ, String, List}
use jungle.Values.{Time}
use jungle.Money.Decimal.{Text}
use jungle.Store.Tables.{Db}
use jungle.Store.Action.{World}
use jungle.Store.Action.Histories.{History}
use jungle.App.ResolveReferences.{ReferencePolicy, Turn}
use jungle.App.PublishOutbox.{PublishPolicy, Surroundings}
use jungle.App.Transactions.{Transactions}
use jungle.App.UseCases.{use_cases}
use jungle.Http.Dto.{Texts}
use jungle.Http.Router.{Packages, Request, serve}
use jungle.Http.Router.Histories.{serve-Keeps}
use jungle.Queue.Loop
use jungle.Queue.Loop.{Receive, run-Leads}
use jungle.Worker.{
  Wake, publish_outbox, resolve_references, publish_outbox-Leads, resolve_references-Leads,
}
use jungle.System.{Step, Run, opened, processed, due, tried, abandoned, claimed, noted, here, next}

join_runs : (a b c : Db) → Run a b → Run b c → Run a c
join_runs a b _ first (here _) = first
join_runs a b _ first (next _ c d second step) = next a c d (join_runs a b c first second) step

step_run : (a b : Db) → Step a b → Run a b
step_run a b step = next a a b (here a) step

-- Tables lead to those that a run ends with.
abbrev runs : History
runs = record { Leads = Run; stay = here; join = join_runs }

runs-Transactions : Transactions runs
runs-Transactions = record {
  opened = λ ids now cmd money. record { at = λ s. step_run _ _ (opened ids now cmd s money) };
  processed =
      λ ids now cmd money. record { at = λ s. step_run _ _ (processed ids now cmd s money) };
  due = λ policy turns now. record { at = λ s. step_run _ _ (due policy turns now s) };
  tried = λ policy turn rec. record { at = λ s. step_run _ _ (tried policy turn rec s) };
  abandoned = λ policy turn rec. record { at = λ s. step_run _ _ (abandoned policy turn rec s) };
  claimed =
      λ owner policy sur pass. record { at = λ s. step_run _ _ (claimed owner policy sur pass s) };
  noted = λ owner policy sur pass i rec. record {
    at = λ s. step_run _ _ (noted owner policy sur pass i rec s);
  };
}

-- Whatever a request asks for, and however the consumer of the queue, the publisher and the resolver go
-- on with their loops, what each has done to the tables is a run of the transactions, those of a
-- wager or an opening with an int64 amount.
pub operations-Run :
    ((p : Packages) (r : Request) (s : World) → Run s.db (serve p r s).1.db)
    × ((texts : Texts) (digest : List (String × Text) → String) (consumer : String)
          (turns : List Receive) (s : World)
        → Run s.db (Loop.run texts digest consumer turns s).1.db)
    × ((owner : String) (policy : PublishPolicy) (surroundings : ℕ → Surroundings)
          (wakes : List Wake) (s : World)
        → Run s.db (publish_outbox owner policy surroundings wakes s).db)
    × ((policy : ReferencePolicy) (turns : ℕ → ℕ → Turn) (now : ℕ → Time) (wakes : List Wake)
          (s : World)
        → Run s.db (resolve_references policy turns now wakes s).db)
operations-Run =
    let cases = use_cases runs-Transactions in
    (
      λ p r. (serve-Keeps cases p r).at,
      run-Leads cases,
      publish_outbox-Leads runs-Transactions,
      resolve_references-Leads runs-Transactions,
    )

module _ {H : History} (parts : Transactions H) where
  Step-Leads : (a b : Db) → Step a b → H.Leads a b
  Step-Leads _ _ (opened ids now cmd s money) = (parts.opened ids now cmd money).at s
  Step-Leads _ _ (processed ids now cmd s money) = (parts.processed ids now cmd money).at s
  Step-Leads _ _ (due policy turns now s) = (parts.due policy turns now).at s
  Step-Leads _ _ (tried policy turn rec s) = (parts.tried policy turn rec).at s
  Step-Leads _ _ (abandoned policy turn rec s) = (parts.abandoned policy turn rec).at s
  Step-Leads _ _ (claimed owner policy sur pass s) = (parts.claimed owner policy sur pass).at s
  Step-Leads _ _ (noted owner policy sur pass i rec s) =
      (parts.noted owner policy sur pass i rec).at s

  -- What every transaction keeps, a run keeps.
  pub Run-Leads : (a b : Db) → Run a b → H.Leads a b
  Run-Leads a _ (here _) = H.stay a
  Run-Leads a _ (next _ b c run step) = H.join a b c (Run-Leads a b run) (Step-Leads b c step)
