-- ===== src/Queue/Loop.antt =====
-- internal/queue/consumer.go: `Run`, from receive to receive until its lifetime ends. What each turn of
-- the loop meets is an argument: the queue's client and the ends of the contexts are outside.
use jungle.Base.{
  ℕ, ◌+◌, String, Bool, true, false, Option, List, [], ◌∷◌, if◌then◌else◌, ◌≡◌, refl, inl, inr,
  Bool-cases,
}
use jungle.Money.Decimal.{Text}
use jungle.Store.Action.{World}
use jungle.Store.Tables.{Db}
use jungle.Store.Action.Histories.{History}
use jungle.App.UseCases.{UseCases}
use jungle.Http.Dto.{Texts}
use jungle.Queue.{MessageEnvelope}
use jungle.Queue.Histories.{handle-Keeps}
use jungle.Queue.Batch.{Delivery, Batch, handle_all}

-- One turn of the loop: the fetching has ended, a receive fails (and the fetching ends before the next
-- turn, or does not), or messages are received.
pub data Receive : Type 0 where
  ended : Receive
  failed : Bool → Receive
  received : (ℕ → Delivery) → List (Option MessageEnvelope) → Receive

module _ (texts : Texts) (digest : List (String × Text) → String) (consumer : String) where
  -- What is left of a batch is released, which ends the loop.
  abbrev pub unless_released :
      List (Option MessageEnvelope) → Batch → (World → List Batch × World) → List Batch × World
  unless_released [] b rest = let (batches, s) = rest b.world in (b ∷ batches, s)
  unless_released (m ∷ ms) b rest = (b ∷ [], b.world)

  abbrev pub go_on : Batch → (World → List Batch × World) → List Batch × World
  go_on b rest = unless_released b.released b rest

  -- `Consumer.Run`: the batches that were handled.
  unfoldable pub run : List Receive → World → List Batch × World
  run [] s = ([], s)
  run (ended ∷ turns) s = ([], s)
  run (failed stops ∷ turns) s = let rest = run turns s in if stops then ([], s) else rest
  run (received at bodies ∷ turns) s =
      go_on (handle_all texts digest consumer at 0 bodies s) (run turns)

  -- Only of the last batch something is released.
  abbrev pub IsDrained : List Batch → Type 0
  IsDrained [] = Unit
  IsDrained (b ∷ []) = Unit
  IsDrained (b ∷ c ∷ bs) = (b.released ≡ []) × IsDrained (c ∷ bs)

module _ {H : History} (cases : UseCases H) (texts : Texts) (digest : List (String × Text) → String)
    (consumer : String) where
  handle_all-Keeps :
      (at : ℕ → Delivery) (i : ℕ) (bodies : List (Option MessageEnvelope)) (s : World)
      → H.Leads s.db (handle_all texts digest consumer at i bodies s).world.db
  unfolding handle_all
  handle_all-Keeps at i [] s = H.stay s.db
  handle_all-Keeps at i (body ∷ bodies) s = elim (Bool-cases (at i).is_stopped) [
    | inl over ↦ rw over (H.stay s.db)
    | inr working ↦
        let d = at i in
        let first = handle-Keeps cases texts digest consumer d.ids d.now d.fresh d.deletes body in
        rw working (H.join s.db _ _ (first.at s) (handle_all-Keeps at (i + 1) bodies _))
  ]

  unless_released-Leads :
      (a : Db) (released : List (Option MessageEnvelope)) (b : Batch)
      (rest : World → List Batch × World)
      → H.Leads a b.world.db
      → ((s : World) → H.Leads s.db (rest s).1.db)
      → H.Leads a (unless_released texts digest consumer released b rest).1.db
  unless_released-Leads a [] b rest first others = H.join a b.world.db _ first (others b.world)
  unless_released-Leads a (m ∷ ms) b rest first others = first

  pub run-Leads :
      (turns : List Receive) (s : World) → H.Leads s.db (run texts digest consumer turns s).1.db
  unfolding run
  run-Leads [] s = H.stay s.db
  run-Leads (ended ∷ turns) s = H.stay s.db
  run-Leads (failed true ∷ turns) s = H.stay s.db
  run-Leads (failed false ∷ turns) s = run-Leads turns s
  run-Leads (received at bodies ∷ turns) s =
      let b = handle_all texts digest consumer at 0 bodies s in
      unless_released-Leads s.db b.released b (run texts digest consumer turns)
        (handle_all-Keeps at 0 bodies s) (run-Leads turns)

module _ (texts : Texts) (digest : List (String × Text) → String) (consumer : String) where
  cons-IsDrained :
      (b : Batch) (bs : List Batch)
      → b.released ≡ []
      → IsDrained texts digest consumer bs
      → IsDrained texts digest consumer (b ∷ bs)
  cons-IsDrained b [] drained h = tt
  cons-IsDrained b (c ∷ bs) drained h = (drained, h)

  unless_released-IsDrained :
      (released : List (Option MessageEnvelope)) (b : Batch) (rest : World → List Batch × World)
      → b.released ≡ released
      → IsDrained texts digest consumer (rest b.world).0
      → IsDrained texts digest consumer (unless_released texts digest consumer released b rest).0
  unless_released-IsDrained [] b rest e others = cons-IsDrained b (rest b.world).0 e others
  unless_released-IsDrained (m ∷ ms) b rest e others = tt

  -- However the receives go, messages are released only from the last batch that is handled.
  run-IsDrained :
      (turns : List Receive) (s : World)
      → IsDrained texts digest consumer (run texts digest consumer turns s).0
  unfolding run
  run-IsDrained [] s = tt
  run-IsDrained (ended ∷ turns) s = tt
  run-IsDrained (failed true ∷ turns) s = tt
  run-IsDrained (failed false ∷ turns) s = run-IsDrained turns s
  run-IsDrained (received at bodies ∷ turns) s =
      let b = handle_all texts digest consumer at 0 bodies s in
      unless_released-IsDrained b.released b (run texts digest consumer turns) refl
        (run-IsDrained turns b.world)
