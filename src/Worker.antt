-- ===== src/Worker.antt =====
-- internal/worker/worker.go: the loops around the publisher and the resolver. The timer and the end of
-- the lifetime are outside: a list says which of them each `select` meets.
use jungle.Base.{ℕ, ◌+◌, String, List, [], ◌∷◌}
use jungle.Values.{Time}
use jungle.Store.Action.{World}
use jungle.Store.Action.Histories.{History}
use jungle.App.ResolveReferences
use jungle.App.ResolveReferences.{ReferencePolicy, Turn}
use jungle.App.PublishOutbox
use jungle.App.PublishOutbox.{PublishPolicy, Surroundings}
use jungle.App.Transactions.{Transactions}
use jungle.App.Transactions.Resolver
use jungle.App.Transactions.Publisher

-- What `select` meets: the end of the fetching, or the timer.
pub data Wake : Type 0 where
  ended fired : Wake

-- `tick`, whose work may depend on the turn it is done in
unfoldable pub tick : (ℕ → World → World) → ℕ → List Wake → World → World
tick work i [] s = s
tick work i (ended ∷ wakes) s = s
tick work i (fired ∷ wakes) s = tick work (i + 1) wakes (work i s)

-- `RegisterOutboxPublisher`; what a run returns is only logged.
abbrev pub publish_outbox : String → PublishPolicy → (ℕ → Surroundings) → List Wake → World → World
publish_outbox owner policy surroundings =
    tick (λ i s. (PublishOutbox.run_once owner policy (surroundings i) s).1) 0

-- `RegisterReferenceResolver`
abbrev pub resolve_references :
    ReferencePolicy → (ℕ → ℕ → Turn) → (ℕ → Time) → List Wake → World → World
resolve_references policy turns now =
    tick (λ i s. (ResolveReferences.run_once policy (turns i) (now i) s).1) 0

module _ (H : History) where
  tick-Leads :
      (work : ℕ → World → World)
      → ((i : ℕ) (s : World) → H.Leads s.db (work i s).db)
      → (i : ℕ) (wakes : List Wake) (s : World) → H.Leads s.db (tick work i wakes s).db
  unfolding tick
  tick-Leads work leads i [] s = H.stay s.db
  tick-Leads work leads i (ended ∷ wakes) s = H.stay s.db
  tick-Leads work leads i (fired ∷ wakes) s =
      H.join s.db (work i s).db _ (leads i s) (tick-Leads work leads (i + 1) wakes (work i s))

module _ {H : History} (parts : Transactions H) where
  pub publish_outbox-Leads :
      (owner : String) (policy : PublishPolicy) (surroundings : ℕ → Surroundings)
      (wakes : List Wake) (s : World)
      → H.Leads s.db (publish_outbox owner policy surroundings wakes s).db
  publish_outbox-Leads owner policy surroundings =
      tick-Leads H _ (λ i. (Publisher.run_once-Keeps parts owner policy (surroundings i)).at) 0

  pub resolve_references-Leads :
      (policy : ReferencePolicy) (turns : ℕ → ℕ → Turn) (now : ℕ → Time) (wakes : List Wake)
      (s : World)
      → H.Leads s.db (resolve_references policy turns now wakes s).db
  resolve_references-Leads policy turns now =
      tick-Leads H _ (λ i. (Resolver.run_once-Keeps parts policy (turns i) (now i)).at) 0
