-- ===== src/Queue/Batch.antt =====
-- internal/queue/consumer.go: the loop of `Run` over the messages that one receive returned. The
-- receive itself and the release of messages are calls of the queue's client.
use jungle.Base.{
  ℕ, suc, String, Bool, true, Option, List, [], ◌∷◌, ◌++◌, ◌+◌, if◌then◌else◌, ◌≡◌, refl, arith,
  length, ap, ◌∙◌, ◌⊎◌, inl, inr, Bool-cases,
}
use jungle.Values.{Uuid, Time}
use jungle.Money.Decimal.{Text}
use jungle.Store.Action.{World}
use jungle.Store.Reconciled.{IsReconciled}
use jungle.App.Settle.{NewIds}
use jungle.Http.Dto.{Texts}
use jungle.Queue.{MessageEnvelope, Fate, handle}
use jungle.Queue.Handled.{handle-IsReconciled}

-- What the handling of a message takes from outside: its new UUIDs, the time, whether the queue accepts
-- its deletion, and whether the context of the work has ended before it.
pub record Delivery : Type 0 where
  pub ids : NewIds
  pub now : Time
  pub fresh : Uuid
  pub deletes : Bool
  pub is_stopped : Bool

-- What has become of a batch: the fates of the messages that were handled, and those released.
pub record Batch : Type 0 where
  pub fates : List Fate
  pub released : List (Option MessageEnvelope)
  pub world : World

module _ (texts : Texts) (digest : List (String × Text) → String) (consumer : String)
    (at : ℕ → Delivery) where
  abbrev handle_one : ℕ → Option MessageEnvelope → World → Fate × World
  handle_one i body =
      handle texts digest consumer (at i).ids (at i).now (at i).fresh (at i).deletes body

  -- The loop over the messages; `i` is the place of the first one.
  unfoldable pub handle_all : ℕ → List (Option MessageEnvelope) → World → Batch
  handle_all i [] s = record { fates = []; released = []; world = s }
  handle_all i (body ∷ bodies) s =
      let (fate, s') = handle_one i body s in
      let rest = handle_all (i + 1) bodies s' in
      if (at i).is_stopped
      then record { fates = []; released = body ∷ bodies; world = s }
      else record { fates = fate ∷ rest.fates; released = rest.released; world = rest.world }

  -- Each message of a batch was handled or is released: those that were handled come first, each has
  -- a fate, and unless all were, the work had ended before the first that is released.
  pub record IsAccounted (i : ℕ) (bodies : List (Option MessageEnvelope)) (b : Batch) : Type 0 where
    pub handled : List (Option MessageEnvelope)
    pub split : bodies ≡ handled ++ b.released
    pub counted : length handled ≡ length b.fates
    pub stopped : (b.released ≡ []) ⊎ ((at (i + length handled)).is_stopped ≡ true)

  -- A handled message put in front of a batch.
  IsAccounted-cons :
      (i : ℕ) (body : Option MessageEnvelope) (bodies : List (Option MessageEnvelope)) (fate : Fate)
      (b : Batch)
      → IsAccounted (i + 1) bodies b
      → IsAccounted i (body ∷ bodies) (record b { fates = fate ∷ b.fates })
  IsAccounted-cons i body bodies fate b rest = record {
    handled = body ∷ rest.handled;
    split = ap (λ xs. body ∷ xs) rest.split;
    counted = ground (arith, rest.counted);
    stopped = elim rest.stopped [
      | inl none_left ↦ inl none_left
      | inr over ↦ inr (ap (λ n. (at n).is_stopped) (moved i (length rest.handled)) ∙ over)
    ];
  }
    where
      moved : (m n : ℕ) → m + suc n ≡ m + 1 + n
      moved m n = omega arith

  -- However the messages of a batch are handled and wherever the work ends: reconciled tables stay
  -- reconciled, and each message was handled or is released, in the order of the batch, none being
  -- released unless the work had ended before the first of those.
  pub handle_all-Kept :
      (i : ℕ) (bodies : List (Option MessageEnvelope)) (s : World)
      → IsReconciled s.db
      → IsReconciled (handle_all i bodies s).world.db × IsAccounted i bodies (handle_all i bodies s)
  unfolding handle_all
  handle_all-Kept i [] s inv =
      (inv, record { handled = []; split = refl; counted = refl; stopped = inl refl })
  handle_all-Kept i (body ∷ bodies) s inv = elim (Bool-cases (at i).is_stopped) [
    | inl over ↦ rw over (
      inv,
      record {
        handled = [];
        split = refl;
        counted = refl;
        stopped = inr (ap (λ n. (at n).is_stopped) (here i) ∙ over);
      },
    )
    | inr working ↦
        let (fate, s') = handle_one i body s in
        let (kept, rest) = handle_all-Kept (i + 1) bodies (handle_one i body s).1 (
          handle-IsReconciled texts digest consumer (at i).ids (at i).now (at i).fresh
            (at i).deletes body s inv) in
        rw working (kept, IsAccounted-cons i body bodies _ _ rest)
  ]
    where
      here : (n : ℕ) → n + 0 ≡ n
      here n = omega arith
