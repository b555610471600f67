-- ===== src/Examples/Requests.antt =====
-- internal/httpapi and internal/queue on concrete requests, and cursors of the ledger.
use jungle.Base.{
  ◌≡◌, ap, refl, ℕ, zero, suc, String, Option, none, some, List, leb, [], ◌∷◌, str_eq, true, false,
  if◌then◌else◌, inr,
}
use jungle.Money.Decimal.{Text}
use jungle.Result.{ok}
use jungle.Store.Reconciled.{IsReconciled}
use jungle.Store.Ledger.{Codec, encode_ledger_cursor, decode_ledger_cursor}
use jungle.Store.Ledger.Cursor.{IsFaithful, HasNoBar, decode-encode_ledger_cursor}
use jungle.App.Identity.{Identity}
use jungle.Http.Dto.{Texts, SubmitTransactionRequest}
use jungle.Http.Errors.{error_body}
use jungle.Http.Handlers.{submit_transaction}
use jungle.Http.Safety.{submit_transaction-Kept, submit_transaction-unavailable}
use jungle.Queue.{MessageEnvelope}
use jungle.Queue.Batch.{Delivery, handle_all, IsAccounted, handle_all-Kept}
use jungle.Examples.Executions.{ids, world, tables-IsReconciled}

-- Packages that write a number as so many characters.
pub strokes : ℕ → String
strokes zero = ""
strokes (suc n) = String.◌∷◌ "i" (strokes n)

pub count_strokes : String → ℕ
count_strokes String.[] = 0
count_strokes (String.◌∷◌ c s) = suc (count_strokes s)

count_strokes-strokes : (n : ℕ) → count_strokes (strokes n) ≡ n
unfolding strokes count_strokes
count_strokes-strokes zero = refl
count_strokes-strokes (suc n) = ap suc (count_strokes-strokes n)

strokes-HasNoBar : (n : ℕ) → HasNoBar (strokes n)
unfolding strokes
strokes-HasNoBar zero = tt
strokes-HasNoBar (suc n) = (refl, strokes-HasNoBar n)

abbrev pub codec : Codec
codec = record {
  encode = λ s. s;
  decode = λ s. some s;
  format_time = strokes;
  parse_time = λ s. some (count_strokes s);
  uuid_text = strokes;
  parse_uuid = λ s. some (count_strokes s);
}

codec-IsFaithful : IsFaithful codec
codec-IsFaithful = record {
  decodes = λ s. refl;
  parses_time = λ t. ap some (count_strokes-strokes t);
  parses_uuid = λ id. ap some (count_strokes-strokes id);
  has_no_bar = strokes-HasNoBar;
}

decode-encode_ledger_cursor_example :
    decode_ledger_cursor codec (encode_ledger_cursor codec 3 4) ≡ ok (3, 4)
decode-encode_ledger_cursor_example = decode-encode_ledger_cursor codec 3 4 codec-IsFaithful

abbrev pub texts : Texts
texts = record {
  parse_uuid =
      λ s. if str_eq s "wallet-1" then some 1 else if str_eq s "player-2" then some 2 else none;
  uuid_text = strokes;
  rfc3339 = strokes;
}

abbrev pub digest : List (String × Text) → String
digest m = "h-1"

abbrev pub request : SubmitTransactionRequest
request = record {
  provider_id = "acme";
  external_transaction_id = "t-1";
  player_id = "player-2";
  wallet_id = "wallet-1";
  round_id = "r-1";
  game_id = "g-1";
  kind = "BET";
  money = record { amount = 50 ∷ 46 ∷ 48 ∷ 48 ∷ []; currency = "BRL" };
  reference_external_transaction_id = "";
}

abbrev pub acme : Identity
acme = record { provider_id = "acme"; is_internal = false }

submit_transaction-Kept_example :
    (IsReconciled world.db
      → IsReconciled
          (submit_transaction texts digest ids 60 "k-1" 30 (some acme) (some request) world).1.db)
    × ((code : String)
        → (submit_transaction texts digest ids 60 "k-1" 30 (some acme) (some request) world).0.body
          ≡ error_body code
        → (submit_transaction texts digest ids 60 "k-1" 30 (some acme) (some request) world).1.db
          ≡ world.db)
submit_transaction-Kept_example =
    submit_transaction-Kept texts digest ids 60 "k-1" 30 (some acme) (some request) world

abbrev misspelt : SubmitTransactionRequest
misspelt = record request { wallet_id = "wallet-one" }

submit_transaction-unavailable_example :
    submit_transaction texts digest ids 60 "k-1" 30 (some acme) (some misspelt) world
    ≡ (record { status = 503; body = error_body "UNAVAILABLE" }, world)
submit_transaction-unavailable_example =
    submit_transaction-unavailable texts digest ids 60 "k-1" 30 acme misspelt world refl refl
      (inr refl)

abbrev pub message : MessageEnvelope
message = record {
  message_id = "m-1";
  data_of = record {
    provider_id = "acme";
    external_transaction_id = "t-1";
    idempotency_key = "k-1";
    player_id = "player-2";
    wallet_id = "wallet-1";
    round_id = "r-1";
    game_id = "g-1";
    kind = "BET";
    money = record { amount = 50 ∷ 46 ∷ 48 ∷ 48 ∷ []; currency = "BRL" };
    reference_external_transaction_id = "";
    correlation_id = "";
  };
}

-- The work ends before the third message.
abbrev deliveries : ℕ → Delivery
deliveries i = record { ids = ids; now = 60; fresh = 30; deletes = true; is_stopped = leb 2 i }

abbrev bodies : List (Option MessageEnvelope)
bodies = some message ∷ none ∷ some message ∷ []

handle_all-Kept_example :
    IsReconciled (handle_all texts digest "wagers" deliveries 0 bodies world).world.db
    × IsAccounted texts digest "wagers" deliveries 0 bodies
        (handle_all texts digest "wagers" deliveries 0 bodies world)
handle_all-Kept_example =
    handle_all-Kept texts digest "wagers" deliveries 0 bodies world tables-IsReconciled
