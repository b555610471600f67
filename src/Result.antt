-- ===== src/Result.antt =====
-- Go's `(value, error)` results. Each error variable of the packages under internal/ is a
-- constructor: `fmt.Errorf("%w: ...", ErrX)` adds a text to ErrX and `errors.Is` looks through it,
-- so an error is modelled by the variable that it wraps. `infrastructure` stands for an error that
-- wraps none of them, such as a failed database call.
use jungle.Base.{◌≡◌, refl, ap, Bool, true, false}

pub data Error : Type 0 where
  -- internal/domain/money/money.go
  empty_amount invalid_format overflow money_currency_mismatch negative_amount : Error
  invalid_currency : Error
  -- internal/domain/wallet/wallet.go and ledger_entry.go
  currency_mismatch amount_not_positive insufficient_balance invalid_wallet : Error
  invalid_direction ledger_invariant invalid_ledger_entry : Error
  -- internal/domain/wagertx/transaction.go
  invalid_transaction invalid_kind invalid_status invalid_transition terminal_state : Error
  opening_not_external reference_required reference_not_applicable : Error
  invalid_amount_for_kind : Error
  -- internal/domain/journal/journal.go
  invalid_entry same_account not_balanced invalid_account : Error
  -- internal/domain/event/event.go
  invalid_event : Error
  -- internal/app/errors.go
  not_found wallet_already_exists idempotency_conflict operation_identity_conflict : Error
  concurrency_conflict wallet_mismatch forbidden : Error
  -- internal/httpapi/handlers.go: `invalidFieldError`; internal/queue/consumer.go: `errPermanent`
  invalid_field permanent : Error
  infrastructure : Error

pub data Result {ℓ} (A : Type ℓ) : Type ℓ where
  ok : A → Result A
  err : Error → Result A

-- `if cond { return ..., e }`
abbrev pub fail_if : Bool → Error → Result (Unit {0})
fail_if true e = err e
fail_if false e = ok tt

-- A call, and the rest of the function if its error is nil.
module _ {ℓ κ} {A : Type ℓ} {B : Type κ} where
  infixl 5 ◌>>=◌
  abbrev pub ◌>>=◌ : Result A → (A → Result B) → Result B
  ok value >>= rest = rest value
  err e >>= rest = err e

module _ {ℓ} {B : Type ℓ} where
  infixl 5 ◌>>◌
  abbrev pub ◌>>◌ : Result (Unit {0}) → Result B → Result B
  check >> rest = check >>= λ _. rest

-- Inversion of a result that is no error.
pub ok-injective {ℓ} : {A : Type ℓ} {a b : A} → ok a ≡ ok b → a ≡ b
ok-injective h = cc

module _ {ℓ} {B : Type ℓ} where
  pub passed :
      (c : Bool) (e : Error) (k : Result B) {b : B}
      → (fail_if c e >> k) ≡ ok b
      → (c ≡ false) × (k ≡ ok b)
  passed true e k h = cc
  passed false e k h = (refl, h)

-- A call and the rest of the function, once the call's outcome is known.
module _ {ℓ κ} {A : Type ℓ} {B : Type κ} (call : Result A) (rest : A → Result B) where
  pub >>=-err : {e : Error} → call ≡ err e → (call >>= rest) ≡ err e
  >>=-err failed = ap (λ r. r >>= rest) failed

  pub >>=-ok : {value : A} → call ≡ ok value → (call >>= rest) ≡ rest value
  >>=-ok done = ap (λ r. r >>= rest) done

-- If the function succeeds, so did the call, and the rest did on what it returned.
module _ {ℓ κ} {A : Type ℓ} {B : Type κ} where
  pub >>=-eq-ok :
      (call : Result A) (rest : A → Result B) {result : B} (h : (call >>= rest) ≡ ok result)
      → (value : A) × (call ≡ ok value) × (rest value ≡ ok result)
  >>=-eq-ok (err e) rest h = cc
  >>=-eq-ok (ok value) rest done = (value, refl, done)
