-- ===== src/Http/Errors.antt =====
-- internal/httpapi/errors.go: the response to an error. Messages are left out.
use jungle.Base.{ℕ, String, List}
use jungle.Result
use jungle.Result.{Error}
use jungle.Http.Dto.{
  WalletResponse, LedgerEntryResponse, SubmitTransactionResponse, TransactionResponse,
  ReconciliationResponse,
}

-- `ErrorBody`, of which the code is kept, or a body of dto.go
pub data Body : Type 0 where
  error_body : String → Body
  wallet_body : WalletResponse → Body
  ledger_body : List LedgerEntryResponse → String → Body
  reconciliation_body : ReconciliationResponse → Body
  submit_body : SubmitTransactionResponse → Body
  transaction_body : TransactionResponse → Body

pub record Response : Type 0 where
  pub status : ℕ
  pub body : Body

-- `abortWith`
abbrev pub abort_with : ℕ → String → Response
abort_with status code = record { status = status; body = error_body code }

abbrev pub bad_request : Response
bad_request = abort_with 400 "INVALID_REQUEST"

abbrev pub unauthenticated : Response
unauthenticated = abort_with 401 "UNAUTHENTICATED"

abbrev pub forbidden : Response
forbidden = abort_with 403 "FORBIDDEN"

-- `respondError`
unfoldable pub respond_error : Error → Response
respond_error Result.not_found = abort_with 404 "NOT_FOUND"
respond_error Result.forbidden = forbidden
respond_error Result.wallet_already_exists = abort_with 409 "WALLET_EXISTS"
respond_error Result.idempotency_conflict = abort_with 409 "IDEMPOTENCY_CONFLICT"
respond_error Result.operation_identity_conflict = abort_with 409 "OPERATION_CONFLICT"
respond_error Result.wallet_mismatch = bad_request
respond_error Result.concurrency_conflict = abort_with 503 "UNAVAILABLE"
respond_error Result.empty_amount = bad_request
respond_error Result.invalid_format = bad_request
respond_error Result.negative_amount = bad_request
respond_error Result.invalid_currency = bad_request
respond_error Result.overflow = bad_request
respond_error Result.money_currency_mismatch = bad_request
respond_error Result.invalid_kind = bad_request
respond_error Result.invalid_transaction = bad_request
respond_error Result.opening_not_external = bad_request
respond_error Result.reference_required = bad_request
respond_error Result.reference_not_applicable = bad_request
respond_error Result.invalid_amount_for_kind = bad_request
respond_error _ = abort_with 503 "UNAVAILABLE"
