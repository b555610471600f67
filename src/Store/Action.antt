-- ===== src/Store/Action.antt =====
-- A database call of internal/postgres: it sees the tables and may fail. `faults` says of each call
-- to come, in order, whether the database fails it; behind the list's end none fails.
pub mod Laws
pub mod Histories
use jungle.Base.{ℕ, ◌≡◌, refl, Bool, true, false, Option, none, some, List, [], ◌∷◌}
use jungle.Values.{Time}
use jungle.Result.{Error, Result, ok, err, infrastructure}
use jungle.Store.Tables.{Db}

pub record World : Type 0 where
  pub db : Db
  -- the database's `now()` in the running transaction
  pub db_now : Time
  pub faults : List Bool

abbrev pub Action : Type 0 → Type 0
Action A = World → Result A × World

module _ {A : Type 0} where
  abbrev pub pure : A → Action A
  pure a s = (ok a, s)

  abbrev pub raise : Error → Action A
  raise e s = (err e, s)

  abbrev pub lift : Result A → Action A
  lift r s = (r, s)

  abbrev pub gets : (Db → A) → Action A
  gets f s = (ok (f s.db), s)

abbrev pub modify : (Db → Db) → Action (Unit {0})
modify f s = (ok tt, record s { db = f s.db })

module _ {A B : Type 0} where
  abbrev pub continue : Result A → (A → Action B) → Action B
  continue (ok a) f s = f a s
  continue (err e) f s = (err e, s)

  infixl 5 ◌>>=◌ ◌>>◌
  unfoldable pub ◌>>=◌ : Action A → (A → Action B) → Action B
  ◌>>=◌ m f s = let (r, s') = m s in continue r f s'

  abbrev pub ◌>>◌ : Action A → Action B → Action B
  m >> n = m >>= λ _. n

abbrev pub fail_if : Bool → Error → Action (Unit {0})
fail_if true e = raise e
fail_if false e = pure tt

fault : World → List Bool → Result (Unit {0}) × World
fault s [] = (ok tt, s)
fault s (true ∷ rest) = (err infrastructure, record s { faults = rest })
fault s (false ∷ rest) = (ok tt, record s { faults = rest })

-- One round trip to the database.
unfoldable pub call : Action (Unit {0})
unfolding fault
call s = fault s s.faults

-- The tables of `s'` given up for those of `s`.
abbrev pub rolled_back : World → World → World
rolled_back s s' = record s' { db = s.db }

module _ {A : Type 0} where
  abbrev pub commit : World → A → Result (Unit {0}) × World → Result A × World
  commit s a (ok _, s') = (ok a, s')
  commit s a (err e, s') = (err e, rolled_back s s')

  -- The end of a transaction that began at `s`: commit, or rollback after an error.
  abbrev pub finish : World → Result A × World → Result A × World
  finish s (ok a, s') = commit s a (call s')
  finish s (err e, s') = (err e, rolled_back s s')

  abbrev pub begun : Action A → World → Result (Unit {0}) × World → Result A × World
  begun body s (ok _, s') = finish s (body s')
  begun body s (err e, s') = (err e, s')

  -- `UnitOfWork.Within` of internal/postgres/repos.go: begin, the body, commit. After an error of
  -- any of the three the tables are as they were, and the error is returned as it is. A commit that
  -- returns an error is taken not to have committed, although its outcome can be unknown to a program
  -- that has lost its connection.
  unfoldable pub within : Action A → Action A
  within body s = begun body s (call s)
