-- ===== src/Store/Ledger.antt =====
-- internal/postgres/ledger_repo.go: `Page` and its cursors; base64, the text of a time and that of
-- a UUID belong to other packages.
pub mod Cursor
use jungle.Base.{
  ℕ, String, Bool, true, false, ◌&&◌, ◌||◌, Option, none, some, List, [], ◌∷◌, ◌==◌, ◌+◌, ltb, leb,
  str_eq, if◌then◌else◌, length, take,
}
use Prim.Native.Char.{Char, code}
use jungle.Values.{Uuid, Time}
use jungle.Money.{Currency, from_minor_units}
use jungle.Wallet.Entry.{WalletLedgerEntry, rehydrate_ledger_entry}
use jungle.Result.{Result, ok, err, not_found, infrastructure}
use jungle.Store.Tables.{WalletRow, LedgerRow}
use jungle.Store.Action.{Action, pure, lift, gets, call, ◌>>=◌, ◌>>◌}
use jungle.Store.Wallets.{find_wallet}
use jungle.Store.Select.{select}

-- `encoding/base64`, `time` and `uuid`, as far as the cursors use them.
pub record Codec : Type 0 where
  pub encode : String → String
  pub decode : String → Option String
  pub format_time : Time → String
  pub parse_time : String → Option Time
  pub uuid_text : Uuid → String
  pub parse_uuid : String → Option Uuid

-- Texts joined.
unfoldable pub append : String → String → String
append String.[] t = t
append (String.◌∷◌ c s) t = String.◌∷◌ c (append s t)

abbrev pub is_bar : Char → Bool
is_bar c = code c == 124

abbrev in_front : Char → Option (String × String) → Option (String × String)
in_front c none = none
in_front c (some (a, b)) = some (String.◌∷◌ c a, b)

-- `strings.SplitN(s, "|", 2)`, where it has two parts.
unfoldable pub split_bar : String → Option (String × String)
split_bar String.[] = none
split_bar (String.◌∷◌ c s) =
    let rest = split_bar s in if is_bar c then some ("", s) else in_front c rest

module _ (codec : Codec) where
  -- `encodeLedgerCursor`
  unfoldable pub encode_ledger_cursor : Time → Uuid → String
  encode_ledger_cursor created_at id =
      codec.encode (append (codec.format_time created_at) (append "|" (codec.uuid_text id)))

  abbrev pub both : Option Time → Option Uuid → Result (Time × Uuid)
  both none o = err not_found
  both (some t) none = err not_found
  both (some t) (some id) = ok (t, id)

  abbrev pub of_parts : Option (String × String) → Result (Time × Uuid)
  of_parts none = err not_found
  of_parts (some (a, b)) = both (codec.parse_time a) (codec.parse_uuid b)

  abbrev pub of_raw : Option String → Result (Time × Uuid)
  of_raw none = err not_found
  of_raw (some raw) = of_parts (split_bar raw)

  -- `decodeLedgerCursor`
  unfoldable pub decode_ledger_cursor : String → Result (Time × Uuid)
  decode_ledger_cursor cursor = of_raw (codec.decode cursor)

-- `(created_at, id) > (t, i)`
abbrev pub is_after : Time × Uuid → LedgerRow → Bool
is_after (t, i) r = ltb t r.created_at || r.created_at == t && ltb i r.id

-- `ORDER BY created_at, id`
abbrev pub is_first : LedgerRow → LedgerRow → Bool
is_first r r' = ltb r.created_at r'.created_at || r.created_at == r'.created_at && leb r.id r'.id

abbrev entry_of : Currency → LedgerRow → WalletLedgerEntry
entry_of c r = record {
  id = r.id;
  wallet_id = r.wallet_id;
  transaction_id = r.transaction_id;
  direction = r.direction;
  amount = from_minor_units r.amount_minor_units c;
  balance_before = from_minor_units r.balance_before_minor_units c;
  balance_after = from_minor_units r.balance_after_minor_units c;
  created_at = r.created_at;
}

-- The currency is a subquery's, which is null and cannot be scanned where there is no wallet.
abbrev read_entry : Option WalletRow → LedgerRow → Result WalletLedgerEntry
read_entry none r = err infrastructure
read_entry (some w) r = rehydrate_ledger_entry (entry_of w.currency r)

abbrev appended :
    Result WalletLedgerEntry → Result (List WalletLedgerEntry) → Result (List WalletLedgerEntry)
appended (err e) rest = err e
appended (ok first) (err e) = err e
appended (ok first) (ok others) = ok (first ∷ others)

unfoldable pub read_entries : Option WalletRow → List LedgerRow → Result (List WalletLedgerEntry)
read_entries w [] = ok []
read_entries w (r ∷ rows) = appended (read_entry w r) (read_entries w rows)

unfoldable pub last_cursor : Codec → List WalletLedgerEntry → String
last_cursor codec [] = ""
last_cursor codec (e ∷ []) = encode_ledger_cursor codec e.created_at e.id
last_cursor codec (e ∷ e' ∷ es) = last_cursor codec (e' ∷ es)

-- The end of `Page`: one row more than the limit was asked for.
abbrev pub cut : Codec → ℕ → List WalletLedgerEntry → List WalletLedgerEntry × String
cut codec limit es =
    if ltb limit (length es) then (take limit es, last_cursor codec (take limit es)) else (es, "")

abbrev pub page_rows : Uuid → ℕ → (LedgerRow → Bool) → Action (List WalletLedgerEntry)
page_rows wallet limit test = do
  call
  rows ← gets (λ db. db.ledger)
  wallets ← gets (λ db. db.wallets)
  lift (
      read_entries (find_wallet wallet wallets)
        (select (λ r. r.wallet_id == wallet && test r) is_first (limit + 1) rows))

-- `Page`
unfoldable pub page : Codec → Uuid → String → ℕ → Action (List WalletLedgerEntry × String)
page codec wallet cursor limit =
    if str_eq cursor ""
    then (do es ← page_rows wallet limit (λ r. true); pure (cut codec limit es))
    else (do
      place ← lift (decode_ledger_cursor codec cursor)
      es ← page_rows wallet limit (is_after place)
      pure (cut codec limit es))
