-- ===== src/Store/Action/Laws.antt =====
-- Database calls and transactions: what a call leaves alone, the inversion of a chain that
-- succeeds, and that a transaction is all or nothing.
use jungle.Base.{◌⊎◌, inl, inr, ◌≡◌, refl, ap, true, false, [], ◌∷◌, arith, Bool, List, ◌∙◌}
use jungle.Store.Tables.{Db}
use jungle.Result.{Error, Result, ok, err, infrastructure}
use jungle.Store.Action.{
  World, Action, call, fault, continue, commit, finish, begun, ◌>>=◌, ◌>>◌, within, fail_if, lift,
  pure,
}

fault-db : (s : World) (fs : List Bool) → (fault s fs).1.db ≡ s.db
unfolding fault
fault-db s [] = refl
fault-db s (true ∷ fs) = refl
fault-db s (false ∷ fs) = refl

pub call-db : (s : World) → (call s).1.db ≡ s.db
unfolding call
call-db s = fault-db s s.faults

fault-cases :
    (s : World) (fs : List Bool) → ((fault s fs).0 ≡ ok tt) ⊎ ((fault s fs).0 ≡ err infrastructure)
unfolding fault
fault-cases s [] = inl refl
fault-cases s (true ∷ fs) = inr refl
fault-cases s (false ∷ fs) = inl refl

pub call-cases : (s : World) → ((call s).0 ≡ ok tt) ⊎ ((call s).0 ≡ err infrastructure)
unfolding call
call-cases s = fault-cases s s.faults

-- A call that the database does not fail.
pub call-quiet : (s : World) → s.faults ≡ [] → call s ≡ (ok tt, s)
unfolding call fault
call-quiet s h = rw h refl

fault-db_now : (s : World) (fs : List Bool) → (fault s fs).1.db_now ≡ s.db_now
unfolding fault
fault-db_now s [] = refl
fault-db_now s (true ∷ fs) = refl
fault-db_now s (false ∷ fs) = refl

pub call-db_now : (s : World) → (call s).1.db_now ≡ s.db_now
unfolding call
call-db_now s = fault-db_now s s.faults

module _ {A B : Type 0} where
  -- Inversion of a chain that succeeds.
  continue-eq-ok :
      (r : Result A) (f : A → Action B) (s : World) {b : B} {s'' : World}
      → continue r f s ≡ (ok b, s'')
      → (a : A) × (r ≡ ok a) × (f a s ≡ (ok b, s''))
  continue-eq-ok (ok a) f s h = (a, refl, h)
  continue-eq-ok (err e) f s h = cc

  pub >>=-eq-ok :
      (m : Action A) (f : A → Action B) (s : World) {b : B} {s'' : World}
      → (m >>= f) s ≡ (ok b, s'')
      → (a : A) × (s' : World) × (m s ≡ (ok a, s')) × (f a s' ≡ (ok b, s''))
  unfolding ◌>>=◌
  >>=-eq-ok m f s h =
      let (a, e, k) = continue-eq-ok (m s).0 f (m s).1 h in
      (a, (m s).1, ap (λ r. (r, (m s).1)) e, k)

  -- Two steps that leave the tables alone.
  continue-db :
      (r : Result A) (f : A → Action B) (s : World)
      → ((a : A) (s' : World) → (f a s').1.db ≡ s'.db)
      → (continue r f s).1.db ≡ s.db
  continue-db (ok a) f s k = k a s
  continue-db (err e) f s k = refl

  pub >>=-db :
      (m : Action A) (f : A → Action B) (s : World)
      → (m s).1.db ≡ s.db
      → ((a : A) (s' : World) → (f a s').1.db ≡ s'.db)
      → ((m >>= f) s).1.db ≡ s.db
  unfolding ◌>>=◌
  >>=-db m f s h k = continue-db (m s).0 f (m s).1 k ∙ h

  -- A chain that fails has changed no table, if its steps change none before they fail.
  continue-err :
      (r : Result A) (f : A → Action B) (s : World) {e : Error} {s'' : World}
      → continue r f s ≡ (err e, s'')
      → ((a : A) → f a s ≡ (err e, s'') → s''.db ≡ s.db)
      → s''.db ≡ s.db
  continue-err (ok a) f s h k = k a h
  continue-err (err e) f s h k = ground arith

  pub >>=-err :
      (m : Action A) (f : A → Action B) (s : World) {e : Error} {s'' : World}
      → (m >>= f) s ≡ (err e, s'')
      → (m s).1.db ≡ s.db
      → ((a : A) (s' : World) → f a s' ≡ (err e, s'') → s''.db ≡ s'.db)
      → s''.db ≡ s.db
  unfolding ◌>>=◌
  >>=-err m f s h d k = continue-err (m s).0 f (m s).1 h (λ a. k a (m s).1) ∙ d

module _ {A B C : Type 0} where
  -- The same, for what follows from the two parts.
  pub >>=-elim :
      (m : Action A) (f : A → Action B) (s : World) {b : B} {s'' : World}
      → (m >>= f) s ≡ (ok b, s'')
      → ((a : A) (s' : World) → m s ≡ (ok a, s') → f a s' ≡ (ok b, s'') → C)
      → C
  >>=-elim m f s h k = let (a, s', e, h') = >>=-eq-ok m f s h in k a s' e h'

  pub lift-elim :
      (r : Result A) (f : A → Action B) (s : World) {b : B} {s'' : World}
      → (lift r >>= f) s ≡ (ok b, s'')
      → ((a : A) → r ≡ ok a → f a s ≡ (ok b, s'') → C)
      → C
  unfolding ◌>>=◌
  lift-elim (ok a) f s h k = k a refl h
  lift-elim (err e) f s h k = cc

module _ {B : Type 0} where
  pub passed :
      (c : Bool) (e : Error) (k : Action B) (s : World) {b : B} {s' : World}
      → (fail_if c e >> k) s ≡ (ok b, s')
      → (c ≡ false) × (k s ≡ (ok b, s'))
  unfolding ◌>>=◌
  passed true e k s h = cc
  passed false e k s h = (refl, h)

module _ {A : Type 0} where
  pub pure-eq-ok :
      (a : A) (s : World) {b : A} {s' : World} → pure a s ≡ (ok b, s') → (b ≡ a) × (s' ≡ s)
  pure-eq-ok a s h = (cc, cc)

  commit-err :
      (s : World) (a : A) (r : Result (Unit {0}) × World) (e : Error) (s' : World)
      → commit s a r ≡ (err e, s')
      → s'.db ≡ s.db
  commit-err s a (ok _, s1) e s' h = cc
  commit-err s a (err x, s1) e s' h = ground arith

  commit-ok :
      (s : World) (a b : A) (r : Result (Unit {0}) × World) (s' : World)
      → commit s a r ≡ (ok b, s')
      → (a ≡ b) × (r.1 ≡ s')
  commit-ok s a b (ok _, s1) s' h = ground arith
  commit-ok s a b (err x, s1) s' h = cc

  finish-err :
      (s : World) (r : Result A × World) (e : Error) (s' : World)
      → finish s r ≡ (err e, s')
      → s'.db ≡ s.db
  finish-err s (ok a, s1) e s' h = commit-err s a (call s1) e s' h
  finish-err s (err x, s1) e s' h = ground arith

  finish-ok :
      (s : World) (r : Result A × World) (b : A) (s' : World)
      → finish s r ≡ (ok b, s')
      → (r.0 ≡ ok b) × (s'.db ≡ r.1.db)
  finish-ok s (ok a, s1) b s' h =
      let (e, w) = commit-ok s a b (call s1) s' h in (ap ok e, rw (← w) (call-db s1))
  finish-ok s (err x, s1) b s' h = cc

  begun-err :
      (body : Action A) (s : World) (r : Result (Unit {0}) × World) (e : Error) (s' : World)
      → begun body s r ≡ (err e, s')
      → r.1.db ≡ s.db
      → s'.db ≡ s.db
  begun-err body s (ok _, s1) e s' h k = finish-err s (body s1) e s' h
  begun-err body s (err x, s1) e s' h k = ground arith

  -- A transaction that returns an error has changed nothing.
  pub within-err :
      (body : Action A) (s : World) (e : Error) (s' : World)
      → within body s ≡ (err e, s')
      → s'.db ≡ s.db
  unfolding within
  within-err body s e s' h = begun-err body s (call s) e s' h (call-db s)

  begun-ok :
      (body : Action A) (s : World) (r : Result (Unit {0}) × World) (a : A) (s' : World)
      → begun body s r ≡ (ok a, s')
      → (body r.1 ≡ (ok a, (body r.1).1)) × (s'.db ≡ (body r.1).1.db)
  begun-ok body s (ok _, s1) a s' h =
      let (e, d) = finish-ok s (body s1) a s' h in (ap (λ r. (r, (body s1).1)) e, d)
  begun-ok body s (err x, s1) a s' h = cc

  -- A transaction that succeeds has the effect of its body.
  pub within-ok :
      (body : Action A) (s : World) (a : A) (s' : World)
      → within body s ≡ (ok a, s')
      → (s₁ s₂ : World) × (s₁.db ≡ s.db) × (body s₁ ≡ (ok a, s₂)) × (s'.db ≡ s₂.db)
  unfolding within
  within-ok body s a s' h =
      let (e, d) = begun-ok body s (call s) a s' h in
      ((call s).1, (body (call s).1).1, call-db s, e, d)

module _ {A : Type 0} where
  -- What holds of the tables before a transaction holds of them after it, whether it succeeds or
  -- fails, if each success of its body keeps it.
  pub within-keeps {ℓ} :
      (P : Db → Type ℓ) (body : Action A) (s : World)
      → P s.db
      → ((s₁ : World) (a : A) (s₂ : World) → P s₁.db → body s₁ ≡ (ok a, s₂) → P s₂.db)
      → P (within body s).1.db
  within-keeps P body s p keeps = go (within body s).0 (within body s).1 refl
    where
      go : (r : Result A) (s' : World) → within body s ≡ (r, s') → P s'.db
      go (ok a) s' h =
          let (s₁, s₂, begin, ran, end) = within-ok body s a s' h in
          rw end (keeps s₁ a s₂ (rw begin p) ran)
      go (err e) s' h = rw (within-err body s e s' h) p
