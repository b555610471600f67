-- ===== src/Store/Action/Histories.antt =====
-- How the tables change: a relation between the tables before and those after, which every single
-- statement keeps, is kept by what is made of statements, whether it succeeds or fails.
use jungle.Base.{◌≡◌, ◌⊎◌, inl, inr, Bool, true, false, if◌then◌else◌}
use jungle.Result.{Error, Result, ok, err}
use jungle.Store.Tables.{Db}
use jungle.Store.Action.{World, Action, lift, gets, fail_if, call, continue, within, ◌>>=◌}
use jungle.Store.Action.Laws.{call-db, within-keeps}

-- A reflexive and transitive relation between tables.
pub record History : Type 1 where
  pub Leads : Db → Db → Type 0
  pub stay : (db : Db) → Leads db db
  pub join : (a b c : Db) → Leads a b → Leads b c → Leads a c

module _ (H : History) where
  -- The tables after the action come of those before it.
  pub record Keeps {A : Type 0} (m : World → A × World) : Type 0 where
    pub at : (s : World) → H.Leads s.db (m s).1.db

module _ {H : History} {A : Type 0} where
  -- Nothing is written.
  pub Keeps-read : (m : World → A × World) → ((s : World) → (m s).1.db ≡ s.db) → Keeps H m
  Keeps-read m same = record { at = λ s. rw (same s) (H.stay s.db) }

  pub Keeps-if :
      (b : Bool) (m n : World → A × World) → Keeps H m → Keeps H n → Keeps H (if b then m else n)
  Keeps-if true m n km kn = km
  Keeps-if false m n km kn = kn

  pub Keeps-choose :
      (b : Bool) (m n : World → A × World)
      → Keeps H m
      → Keeps H n
      → Keeps H (λ s. if b then m s else n s)
  Keeps-choose true m n km kn = record { at = km.at }
  Keeps-choose false m n km kn = record { at = kn.at }

  -- A step and then another that depends on what the first returned.
  pub Keeps-then :
      {B : Type 0} (m : World → A × World) (f : A → World → B × World)
      → Keeps H m
      → ((a : A) → Keeps H (f a))
      → Keeps H (λ s. f (m s).0 (m s).1)
  Keeps-then m f km kf = record {
    at = λ s. H.join s.db (m s).1.db _ (km.at s) ((kf (m s).0).at (m s).1);
  }

-- An action that has done nothing, or what `P` says.
pub Keeps-either :
    {H : History} {A : Type 0} (m : World → A × World) (P : World → Type 0)
    → ((s : World) → ((m s).1.db ≡ s.db) ⊎ P s)
    → ((s : World) → P s → H.Leads s.db (m s).1.db)
    → Keeps H m
Keeps-either {H} m P done may = record {
  at = λ s. elim (done s) [ inl same ↦ rw same (H.stay s.db) | inr p ↦ may s p ];
}

module _ {H : History} {A : Type 0} where
  pub Keeps-lift : (r : Result A) → Keeps H (lift r)
  Keeps-lift r = record { at = λ s. H.stay s.db }

  pub Keeps-gets : (f : Db → A) → Keeps H (gets f)
  Keeps-gets f = record { at = λ s. H.stay s.db }

pub Keeps-call : {H : History} → Keeps H call
Keeps-call = Keeps-read call call-db

pub Keeps-fail_if : {H : History} (b : Bool) (e : Error) → Keeps H (fail_if b e)
Keeps-fail_if {H} true e = record { at = λ s. H.stay s.db }
Keeps-fail_if {H} false e = record { at = λ s. H.stay s.db }

module _ {H : History} {A B : Type 0} where
  Keeps-continue :
      (f : A → Action B) (r : Result A) → ((a : A) → Keeps H (f a)) → Keeps H (continue r f)
  Keeps-continue f (ok a) kf = kf a
  Keeps-continue f (err e) kf = record { at = λ s. H.stay s.db }

  pub Keeps-bind :
      (m : Action A) (f : A → Action B) → Keeps H m → ((a : A) → Keeps H (f a)) → Keeps H (m >>= f)
  unfolding ◌>>=◌
  Keeps-bind m f km kf = Keeps-then m (λ r. continue r f) km (λ r. Keeps-continue f r kf)

-- A database transaction: what it has written stands or is rolled back.
pub Keeps-within :
    {H : History} {A : Type 0} (body : Action A) → Keeps H body → Keeps H (within body)
Keeps-within {H} body kept = record {
  at = λ s.
      within-keeps (H.Leads s.db) body s (H.stay s.db)
        λ s₁ a s₂ before ran. H.join s.db s₁.db s₂.db before (rw ran at (kept.at s₁));
}
